-- ===== src/FenceBlocks/Slices.antt =====
-- What `splitBlocks` of scripts/fence-code-blocks.js finds.
use nginx_web_ui.Prelude.{
  ℕ, suc, ◌+◌, ◌≡◌, refl, ap, sym, ◌∙◌, subst, inl, inr, Bool, true, false, ◌||◌, List, [], ◌∷◌,
  ◌++◌, append_assoc, Option, none, some, arith, Text, All, All-append, length, length-append,
  Bool-cases,
}
use nginx_web_ui.Regex.{test}
use nginx_web_ui.FenceBlocks.Patterns.{quote_re, meta_re}
use nginx_web_ui.FenceBlocks.Blocks.{Block, Open, flush, push_line, split_loop, split_blocks}

-- The block's lines stand in the text from `start` to `end`, all are quoted and none excludes a block.
pub record Slice (total : List Text) (b : Block) : Type 0 where
  pub before : List Text
  pub after : List Text
  pub spells : total ≡ before ++ (b.lines ++ after)
  pub starts : length before ≡ b.start
  pub ends : b.start + length b.lines ≡ suc b.end
  pub quoted : All (λ l. test quote_re l ≡ true) b.lines
  pub plain : All (λ l. test meta_re l ≡ false) b.lines

-- The open block ends where the lines that are read end.
record Pending (read : List Text) (o : Open) : Type 0 where
  before : List Text
  spells : read ≡ before ++ o.block.lines
  starts : length before ≡ o.block.start
  ends : o.block.start + length o.block.lines ≡ suc o.block.end
  quoted : All (λ l. test quote_re l ≡ true) o.block.lines
  plain : o.excluded ≡ false → All (λ l. test meta_re l ≡ false) o.block.lines

abbrev PendingAt : List Text → Option Open → Type 0
PendingAt read none = Unit {0}
PendingAt read (some o) = Pending read o

flush-Slice :
    (total read rest : List Text) (cur : Option Open) (blocks : List Block)
    → total ≡ read ++ rest
    → PendingAt read cur
    → All (Slice total) blocks
    → All (Slice total) (flush cur blocks)
unfolding flush
flush-Slice total read rest none blocks e p h = h
flush-Slice total read rest (some o) blocks e p h = elim (Bool-cases o.excluded) [
  | inl out ↦ rw out h
  | inr kept ↦ rw kept (
      All-append _ blocks (o.block ∷ []) h (
        record {
          before = p.before;
          after = rest;
          spells = e ∙ ap (λ x. x ++ rest) p.spells ∙ append_assoc p.before o.block.lines rest;
          starts = p.starts;
          ends = p.ends;
          quoted = p.quoted;
          plain = p.plain kept;
        },
        tt,
      ))
]

or_false-left : (a b : Bool) → (a || b) ≡ false → a ≡ false
or_false-left a b h = ground arith

or_false-right : (a b : Bool) → (a || b) ≡ false → b ≡ false
or_false-right a b h = ground arith

push_line-Pending :
    (read : List Text) (l : Text) (cur : Option Open)
    → test quote_re l ≡ true
    → PendingAt read cur
    → Pending (read ++ l ∷ []) (push_line (length read) l cur)
unfolding push_line
push_line-Pending read l none q p = record {
  before = read;
  spells = refl;
  starts = refl;
  ends = omega arith;
  quoted = (q, tt);
  plain = λ m. (m, tt);
}
push_line-Pending read l (some o) q p = record {
  before = p.before;
  spells = ap (λ x. x ++ l ∷ []) p.spells ∙ append_assoc p.before o.block.lines (l ∷ []);
  starts = p.starts;
  ends = omega (
    arith,
    p.starts,
    ap length p.spells,
    length-append p.before o.block.lines,
    length-append o.block.lines (l ∷ []),
  );
  quoted = All-append _ o.block.lines (l ∷ []) p.quoted (q, tt);
  plain = λ m.
      All-append _ o.block.lines (l ∷ []) (p.plain (or_false-left _ _ m))
        (or_false-right _ _ m, tt);
}

split_loop-Slice :
    (total read rest : List Text) (i : ℕ) (cur : Option Open) (blocks : List Block)
    → total ≡ read ++ rest
    → i ≡ length read
    → PendingAt read cur
    → All (Slice total) blocks
    → All (Slice total) (split_loop i rest cur blocks)
unfolding split_loop
split_loop-Slice total read [] i cur blocks e n p h = flush-Slice total read [] cur blocks e p h
split_loop-Slice total read (l ∷ ls) i cur blocks e n p h =
    let next : total ≡ (read ++ l ∷ []) ++ ls = e ∙ sym (append_assoc read (l ∷ []) ls) in
    let size : i + 1 ≡ length (read ++ l ∷ []) = omega (arith, length-append read (l ∷ [])) in
    elim (Bool-cases (test quote_re l)) [
      | inl q ↦ rw q (
          split_loop-Slice total (read ++ l ∷ []) ls (i + 1) (some (push_line i l cur)) blocks next
            size
            (subst (λ j. Pending (read ++ l ∷ []) (push_line j l cur)) (sym n)
              (push_line-Pending read l cur q p))
            h)
      | inr other ↦ rw other (
          split_loop-Slice total (read ++ l ∷ []) ls (i + 1) none (flush cur blocks) next size tt
            (flush-Slice total read (l ∷ ls) cur blocks e p h))
    ]

-- Each block is a run of lines of the text from its `start` to its `end`, of quoted lines only, none
-- of which excludes a block.
pub split_blocks-Slice : (lines : List Text) → All (Slice lines) (split_blocks lines)
unfolding split_blocks
split_blocks-Slice lines = split_loop-Slice lines [] lines 0 none [] refl refl tt tt
