-- ===== src/HttpServer/HomePage.antt =====
-- What `Run` makes of a file that holds a response.
use semantic_search_engine.Base.{
  ℕ, suc, ◌+◌, ◌≡◌, ◌≢◌, refl, ap, sym, subst, ◌∙◌, false, List, [], ◌∷◌, ◌++◌, append_assoc, some,
  Bytes, arith, drop, All, All-append,
}
use semantic_search_engine.HttpServer.Startup.{joined_lines, strip_head, load_home_page}
use semantic_search_engine.Text.{find, starts_with, lines}
use semantic_search_engine.Text.Lines.{Lacks, lines-append}

-- Lines that hold no line break.
abbrev pub AreLines : List Bytes → Type 0
AreLines = All (Lacks 10)

-- Lines that are not empty either.
abbrev pub AreFull : List Bytes → Type 0
AreFull = All (λ l. (l ≢ []) × Lacks 10 l)

full-AreLines : (ls : List Bytes) → AreFull ls → AreLines ls
full-AreLines [] h = tt
full-AreLines (l ∷ ls) ((ne, hl), h) = (hl, full-AreLines ls h)

lines-joined_lines : (ls : List Bytes) → AreLines ls → lines 10 (joined_lines ls) ≡ ls
unfolding joined_lines lines
lines-joined_lines [] h = refl
lines-joined_lines (l ∷ ls) (hl, h) =
    lines-append 10 l (joined_lines ls) hl ∙ ap (◌∷◌ l) (lines-joined_lines ls h)

joined_lines-append :
    (ls ms : List Bytes) → joined_lines (ls ++ ms) ≡ joined_lines ls ++ joined_lines ms
unfolding joined_lines
joined_lines-append [] ms = refl
joined_lines-append (l ∷ ls) ms =
    ap (λ x. l ++ 10 ∷ x) (joined_lines-append ls ms)
    ∙ sym (append_assoc l (10 ∷ joined_lines ls) (joined_lines ms))

-- What follows the first empty line of a text.
abbrev Found : Bytes → Bytes → Type 0
Found s rest = (i : ℕ) × (find (10 ∷ 10 ∷ []) s ≡ some i) × (drop (i + 2) s ≡ rest)

Found-next :
    (c : ℕ) (s rest : Bytes)
    → starts_with (c ∷ s) (10 ∷ 10 ∷ []) ≡ false
    → Found s rest
    → Found (c ∷ s) rest
unfolding find
Found-next c s rest h (i, e, d) =
    (suc i, rw (find, h, e) refl, ap (λ n. drop n (c ∷ s)) (next i) ∙ d)
  where
    next : (n : ℕ) → suc n + 2 ≡ suc (n + 2)
    next n = omega arith

no_break : (c : ℕ) (s : Bytes) → c ≢ 10 → starts_with (c ∷ s) (10 ∷ 10 ∷ []) ≡ false
unfolding starts_with
no_break c s h = ground arith

one_break : (c : ℕ) (s : Bytes) → c ≢ 10 → starts_with (10 ∷ c ∷ s) (10 ∷ 10 ∷ []) ≡ false
unfolding starts_with
one_break c s h = ground arith

-- The first empty line behind a head is at its end.
Found-at :
    (l : Bytes) (ls : List Bytes) (rest : Bytes)
    → Lacks 10 l
    → AreFull ls
    → Found (l ++ 10 ∷ (joined_lines ls ++ 10 ∷ rest)) rest
unfolding joined_lines
Found-at (c ∷ l) ls rest (hc, h) full =
    Found-next c (l ++ 10 ∷ (joined_lines ls ++ 10 ∷ rest)) rest
      (no_break c (l ++ 10 ∷ (joined_lines ls ++ 10 ∷ rest)) hc) (Found-at l ls rest h full)
Found-at [] [] rest h full = (0, at_once rest, refl)
  where
    at_once : (s : Bytes) → find (10 ∷ 10 ∷ []) (10 ∷ 10 ∷ s) ≡ some 0
    at_once s = unfold find starts_with in refl
Found-at [] ([] ∷ ls) rest h ((ne, hl), full) = absurd (ne refl)
Found-at [] ((c ∷ l) ∷ ls) rest h ((ne, (hc, hl)), full) =
    let tail = (l ++ 10 ∷ joined_lines ls) ++ 10 ∷ rest in
    Found-next 10 (c ∷ tail) rest (one_break c tail hc) (
      subst (λ s. Found (c ∷ s) rest) (sym (append_assoc l (10 ∷ joined_lines ls) (10 ∷ rest)))
        (Found-at (c ∷ l) ls rest (hc, hl) full))

strip_head-Found : (s rest : Bytes) → Found s rest → strip_head s ≡ rest
unfolding strip_head
strip_head-Found s rest (i, e, d) = rw (strip_head, e) d

-- From a file that holds a response, its first line, its full header lines, an empty line and a
-- body, `Run` keeps the lines of the body as the home page, each with its line break.
pub load_home_page-response :
    (l : Bytes) (ls body : List Bytes)
    → Lacks 10 l
    → AreFull ls
    → AreLines body
    → load_home_page (joined_lines ((l ∷ ls) ++ ([] ∷ body))) ≡ joined_lines body
unfolding load_home_page
load_home_page-response l ls body h full ends =
    ap (λ x. strip_head (joined_lines x))
      (lines-joined_lines ((l ∷ ls) ++ ([] ∷ body))
        (All-append (Lacks 10) (l ∷ ls) ([] ∷ body) (h, full-AreLines ls full) (tt, ends)))
    ∙ ap strip_head (head_text)
    ∙ strip_head-Found (l ++ 10 ∷ (joined_lines ls ++ 10 ∷ joined_lines body)) (joined_lines body)
        (Found-at l ls (joined_lines body) h full)
  where
    head_text :
        joined_lines ((l ∷ ls) ++ ([] ∷ body))
        ≡ l ++ 10 ∷ (joined_lines ls ++ 10 ∷ joined_lines body)
    head_text = unfold joined_lines in ap (λ x. l ++ 10 ∷ x) (joined_lines-append ls ([] ∷ body))
