-- ===== src/Admin/IpTags/Reload.antt =====
-- The text of a list of adminPage/denyAllow/index.js, sent and loaded again.
use nginx_web_ui.Prelude.{
  ℕ, ◌≡◌, refl, ap, sym, ◌∙◌, inl, inr, false, List, [], ◌∷◌, ◌++◌, some, arith, All, Text, trim,
  trim_start, trim_end, is_space, split_runs, join_lines, Bool-cases,
}
use nginx_web_ui.Admin.IpTags.Editor.{
  Names, Tag, Editor, ips, is_nil, separates, load_tags, load_from_textarea, render_tags,
}
use nginx_web_ui.Admin.IpTags.Invariants.{TagOk}

-- No white space, comma or semicolon.
abbrev pub Plain : Text → Type 0
Plain = All (λ c. separates c ≡ false)

-- Plain texts, none of them empty.
abbrev pub PlainLines : List Text → Type 0
PlainLines = All (λ l. (is_nil l ≡ false) × Plain l)

not_space : (c : ℕ) → separates c ≡ false → is_space c ≡ false
not_space c h = ground (arith, h)

trim_end-Plain : (s : Text) → Plain s → trim_end s ≡ s
unfolding trim_end
trim_end-Plain [] h = refl
trim_end-Plain (c ∷ []) h = rw (not_space c h.0) refl
trim_end-Plain (c ∷ d ∷ s) h = rw (trim_end-Plain (d ∷ s) h.1) refl

trim_start-Plain : (s : Text) → Plain s → trim_start s ≡ s
unfolding trim_start
trim_start-Plain [] h = refl
trim_start-Plain (c ∷ s) h = rw (not_space c h.0) refl

trim-Plain : (s : Text) → Plain s → trim s ≡ s
unfolding trim
trim-Plain s h = ap trim_start (trim_end-Plain s h) ∙ trim_start-Plain s h

split_runs-one : (c : ℕ) (s : Text) → Plain (c ∷ s) → split_runs separates (c ∷ s) ≡ (c ∷ s) ∷ []
unfolding split_runs
split_runs-one c [] h = rw h.0 refl
split_runs-one c (d ∷ s) h = rw (h.0, split_runs-one d s h.1) refl

split_runs-cut :
    (c : ℕ) (s : Text) (d : ℕ) (rest : Text)
    → Plain (c ∷ s)
    → separates d ≡ false
    → split_runs separates (c ∷ s ++ 10 ∷ d ∷ rest) ≡ (c ∷ s) ∷ split_runs separates (d ∷ rest)
unfolding split_runs is_space
split_runs-cut c [] d rest h k = rw (h.0, k) refl
split_runs-cut c (x ∷ s) d rest h k = rw (h.0, split_runs-cut x s d rest h.1 k) refl

join_lines-first :
    (d : ℕ) (t : Text) (ls : List Text) → (rest : Text) × (join_lines ((d ∷ t) ∷ ls) ≡ d ∷ rest)
unfolding join_lines
join_lines-first d t [] = (t, refl)
join_lines-first d t (l ∷ ls) = (t ++ 10 ∷ join_lines (l ∷ ls), refl)

split_runs-join_lines :
    (c : ℕ) (s : Text) (ls : List Text)
    → Plain (c ∷ s)
    → PlainLines ls
    → split_runs separates (join_lines ((c ∷ s) ∷ ls)) ≡ (c ∷ s) ∷ ls
unfolding join_lines
split_runs-join_lines c s [] k h = split_runs-one c s k
split_runs-join_lines c s ([] ∷ ls) k h = absurd (grind (arith, h.0.0))
split_runs-join_lines c s ((d ∷ t) ∷ ls) k ((some_, plain), h) =
    let (rest, e) = join_lines-first d t ls in
    ap (λ r. split_runs separates (c ∷ s ++ 10 ∷ r)) e
    ∙ split_runs-cut c s d rest k plain.0
    ∙ ap (λ r. (c ∷ s) ∷ r)
        (ap (split_runs separates) (sym e) ∙ split_runs-join_lines d t ls plain h)

module _ (lower : Text → Text) (n : Names) where
  load_tags-ips :
      (ts : List Tag) → All TagOk ts → PlainLines (ips ts) → load_tags lower n (ips ts) ≡ ts
  unfolding load_tags
  load_tags-ips [] ok h = refl
  load_tags-ips (t ∷ ts) (ok, oks) ((some_, plain), h) =
      rw (trim-Plain t.ip plain, some_)
        (ap (λ v. record { ip = t.ip; valid = v } ∷ load_tags lower n (ips ts)) (sym ok.0)
          ∙ ap (λ r. t ∷ r) (load_tags-ips ts oks h))

  render_tags-tags : (e : Editor) → (render_tags lower n e).tags ≡ e.tags
  unfolding render_tags
  render_tags-tags e = elim (Bool-cases n.has_container) [
    | inl there ↦ rw there refl
    | inr not_ ↦ rw not_ refl
  ]

  load_lines :
      (v : Text) (ls : List Text) (f : Editor)
      → PlainLines (v ∷ ls)
      → (load_from_textarea lower n (some (join_lines (v ∷ ls))) f).tags
        ≡ load_tags lower n (v ∷ ls)
  unfolding load_from_textarea
  load_lines [] ls f h = absurd (grind (arith, h.0.0))
  load_lines (c ∷ s) ls f h =
      let (rest, e) = join_lines-first c s ls in
      ap (λ r. (load_from_textarea lower n (some r) f).tags) e
      ∙ render_tags-tags (record f { tags = load_tags lower n (split_runs separates (c ∷ rest)) })
      ∙ ap (λ r. load_tags lower n (split_runs separates r)) (sym e)
      ∙ ap (load_tags lower n) (split_runs-join_lines c s ls h.0.1 h.1)

  -- The text area that is saved gives the same tags when it is loaded, flags included, where the
  -- flags are those of the addresses and no address is empty or has white space, a comma or a
  -- semicolon.
  pub load_from_textarea-ips :
      (ts : List Tag) (f : Editor)
      → All TagOk ts
      → PlainLines (ips ts)
      → (load_from_textarea lower n (some (join_lines (ips ts))) f).tags ≡ ts
  unfolding load_from_textarea join_lines
  load_from_textarea-ips [] f ok h = render_tags-tags (record f { tags = [] })
  load_from_textarea-ips (t ∷ ts) f ok h =
      load_lines t.ip (ips ts) f h ∙ load_tags-ips (t ∷ ts) ok h
