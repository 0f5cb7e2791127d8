-- ===== src/Lib.antt =====
-- nginxWebUI: the scripts that clean and translate the documentation, the challenge worker, and pages of the
-- administration.
--
-- The repository holds a web administration for nginx. Its own JavaScript is that of the scripts
-- below scripts/, of the challenge page below cloudflare/ and of the pages of the administration. This
-- library models the scripts that rewrite the nginx documentation in place, which work on files that
-- people edit, the worker that lets a visitor through, and the scripts of pages where a person edits
-- addresses, networks and certificates.
--
-- The parts and their files:
-- - Prelude: names of the library, lists and their lengths on native numbers, strings as lists of
--   UTF-16 code units, and decimal numbers.
-- - Regex: the regular expressions of JavaScript as the scripts use them: a syntax (Regex/Syntax),
--   a matcher that tries the alternatives in order and goes back (Regex/Matcher), the methods exec,
--   test, match and replace (Regex/Search), and lemmas that say what a match can be. The platform's
--   rules are followed, since the scripts depend on the order of the alternatives.
-- - FileSafety: scripts/docs-file-safety.js. FileSafety/Disk has names, inodes with their number of
--   names, and symbolic links; FileSafety/Stamp has createBackupOnce and updateExistingStamp, where
--   four functions on the disk stand for what other processes do before fstat, lstat, the write and
--   the cut, and two on texts for how bytes are written over and cut;
--   FileSafety/Program has programs that read and write, which stop at the first error.
-- - FenceBlocks: scripts/fence-code-blocks.js. Blocks has splitBlocks, stripQuote, unescapeMd and
--   bodyLines; Classify has isCodeBlock and detectLanguage; Scan has fenceScan and
--   contentFingerprint; Render has fenceMarker, toFence, reindent and blockIndent; Convert has
--   convertFile; Cli has intArg, parseArgs, selectFiles, firstDiff and sampleAt; Run has main.
-- - DocsTranslation: scripts/translate-docs.js. Protect has protect, hasSubstance and restore; Lines
--   has isTranslatable and collectTargets, which uses fenceScan of FenceBlocks; Safety has count,
--   lineIsSafe and sanityCheck; Engines has the batches of Microsoft and of Tencent, Google those of
--   Google with the JSON of an answer; TranslateFile has
--   translateFile; Nav has stripNavText; Repair has repairFile and stripNav. These call FileSafety.
--   Cli has parseArgs, listMarkdown and selectFiles; Main the modes of main without an engine, and
--   Workers its workers, which take files from one queue in any order.
-- - Challenge: cloudflare/challenge-worker/src, a worker that stands before a protected site. Platform has
--   what it uses of the platform; Tickets has tickets.js, the signed tickets that nginx and the worker
--   exchange; Turnstile has turnstile.js; Handler has createHandler and readForm of index.js.
-- - Admin: src/main/resources/static/js/adminPage. Page has a page as its scripts see it through jQuery
--   and layui: values, contents and locks of elements by id, and a log of what is shown, asked and
--   sent; Html has escapeHtml. IpTags is denyAllow/index.js: Addresses has isValidIp, Editor the tags,
--   Dialogs what loads and saves a list, and Protection the same script in a tab,
--   protectionCert/denyAllow.js. Asn is protectionCert/asnCatalog.js: Gates has the profile, Tables the
--   catalog and the intents, Requests the buttons. Cert is cert/index.js: Form, Dialogs and Requests,
--   and Tab the same script in a tab, protectionCert/cert.js. BlockEditor is common/blockEditor.js:
--   Draft has the text, Posts the requests and what is done with their answers.
--
-- In a page, a request is an entry of the log, and its answer comes to a function of its own, at any later
-- time. An answer that succeeds, one that is refused and a request that fails are the three cases of
-- Reply. The lists and the networks call escapeHtml where they write HTML; no page shares state with
-- another.
--
-- A function keeps its name, in snake case. A loop over an array is a recursion over the list, and
-- what it assigns is a record that goes through it. A file is a path of a disk, and a script that
-- writes is a function from a disk to a result and a disk.
--
-- Parameters: an engine of translateFile is any function from the masked lines to answers; the servers
-- of the engines, the clock and the token service are functions of the round; Number of a command
-- line argument is a function; the signatures, encodings and the clock of the worker are a record of
-- functions and two times; FilePlatform says whether the platform has O_NOFOLLOW, and what writing
-- over the bytes of a file and cutting them makes of its text. Upper and lower case,
-- the clock, the forms of a date and what a field makes of line breaks on a page are functions, and a
-- text of the message files stands by its name.
--
-- Bounds: a chain of symbolic links is followed 40 times, as Linux does. The matcher and the search
-- of a text have the length of the text as fuel, since a round without progress ends the loop of a
-- repetition. The batches have the number of texts as fuel, and the options of the command line the
-- number of arguments; each round takes at least one.
--
-- Not modelled: the text of reports, the samples of main, directories that are made, the pauses between
-- requests, the client key of an engine, negative numbers on the command line of translate-docs.js, and
-- a run of its workers that an error ends. On a page: the markup, the styles and the layout, the boxes
-- that are checked at once, the flash of a tag that is there already, and downloads. The page of the challenge worker and the other pages of the
-- administration, which fill and send forms, are not modelled. scripts/auto-translate.js is a copy of another project's script.
-- Vendored libraries, the server in Java and the front end in TypeScript are not part of the library.
pub mod Prelude
pub mod Regex
pub mod FileSafety
pub mod FenceBlocks
pub mod DocsTranslation
pub mod Challenge
pub mod Admin
