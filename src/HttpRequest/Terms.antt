-- ===== src/HttpRequest/Terms.antt =====
-- `SplitTerms`: what its terms are, and that it splits a form-encoded query into its words.
use semantic_search_engine.Base.{
  ℕ, suc, true, false, ◌≡◌, ◌≢◌, refl, ap, ◌∙◌, Bool, List, [], ◌∷◌, ◌++◌, map, Bytes, codes, arith,
  drop, length, All, append-nil,
}
use semantic_search_engine.Text.{to_lower, lines}
use semantic_search_engine.Text.Lines.{Lacks, lines-append, lines_last, lines-Lacks}
use semantic_search_engine.Text.Search.{find_char-append}
use semantic_search_engine.HttpRequest.{replace_spaces, behind_equals, keep_terms, split_terms}

-- A term is not empty, in lower case, and holds no '+'.
pub record IsTerm (term : Bytes) : Type 0 where
  pub ne_nil : term ≢ []
  pub lower_case : map to_lower term ≡ term
  pub no_plus : Lacks b'+' term

lower-lower : (s : Bytes) → map to_lower (map to_lower s) ≡ map to_lower s
unfolding to_lower
lower-lower [] = refl
lower-lower (c ∷ s) = ground (arith, lower-lower s)

lower-Lacks : (s : Bytes) → Lacks b'+' s → Lacks b'+' (map to_lower s)
unfolding to_lower
lower-Lacks [] h = tt
lower-Lacks (c ∷ s) (hc, h) = (ground arith, lower-Lacks s h)

keep_terms-IsTerm : (ls : List Bytes) → All (Lacks b'+') ls → All IsTerm (keep_terms ls)
unfolding keep_terms
keep_terms-IsTerm [] h = tt
keep_terms-IsTerm ([] ∷ ls) (hl, h) = keep_terms-IsTerm ls h
keep_terms-IsTerm ((c ∷ l) ∷ ls) (hl, h) = (
  record { ne_nil = λ e. cc; lower_case = lower-lower (c ∷ l); no_plus = lower-Lacks (c ∷ l) hl },
  keep_terms-IsTerm ls h,
)

-- Whatever the query, each term is a nonempty text in lower case with no '+'.
split_terms-IsTerm : (query : Bytes) → All IsTerm (split_terms query)
unfolding split_terms
split_terms-IsTerm query =
    keep_terms-IsTerm (lines b'+' (replace_spaces (behind_equals query)))
      (lines-Lacks b'+' (replace_spaces (behind_equals query)))

replace_spaces-cons : (a : ℕ) (q : Bytes) → a ≢ b'%' → replace_spaces (a ∷ q) ≡ a ∷ replace_spaces q
unfolding replace_spaces
replace_spaces-cons a [] h = refl
replace_spaces-cons a (b ∷ []) h = refl
replace_spaces-cons a (b ∷ c ∷ q) h = ground arith

replace_spaces-append :
    (w q : Bytes) → Lacks b'%' w → replace_spaces (w ++ q) ≡ w ++ replace_spaces q
replace_spaces-append [] q h = refl
replace_spaces-append (a ∷ w) q (ha, h) =
    replace_spaces-cons a (w ++ q) ha ∙ ap (◌∷◌ a) (replace_spaces-append w q h)

-- A separator: "%20" or "+".
abbrev pub separator : Bool → Bytes
separator true = codes "%20"
separator false = b'+' ∷ []

-- words, each with the separator before it
abbrev pub more_words : List (Bool × Bytes) → Bytes
more_words [] = []
more_words ((b, w) ∷ ws) = separator b ++ (w ++ more_words ws)

abbrev plus_words : List (Bool × Bytes) → Bytes
plus_words [] = []
plus_words ((b, w) ∷ ws) = b'+' ∷ (w ++ plus_words ws)

pub record IsQueryWord (word : Bytes) : Type 0 where
  pub ne_nil : word ≢ []
  pub no_plus : Lacks b'+' word
  pub no_percent : Lacks b'%' word

replace_spaces-separator :
    (b : Bool) (q : Bytes) → replace_spaces (separator b ++ q) ≡ b'+' ∷ replace_spaces q
unfolding replace_spaces
replace_spaces-separator true q = refl
replace_spaces-separator false q = replace_spaces-cons b'+' q (omega arith)

replace_spaces-more_words :
    (ws : List (Bool × Bytes))
    → All (λ e. IsQueryWord e.1) ws
    → replace_spaces (more_words ws) ≡ plus_words ws
replace_spaces-more_words [] h = unfold replace_spaces in refl
replace_spaces-more_words ((b, w) ∷ ws) (hw, h) =
    replace_spaces-separator b (w ++ more_words ws)
    ∙ ap (◌∷◌ b'+') (
        replace_spaces-append w (more_words ws) hw.no_percent
        ∙ ap (◌++◌ w) (replace_spaces-more_words ws h))

lower_words : List (Bool × Bytes) → List Bytes
lower_words ws = map (λ e. map to_lower e.1) ws

keep_terms-words :
    (w : Bytes) (ws : List (Bool × Bytes))
    → IsQueryWord w
    → All (λ e. IsQueryWord e.1) ws
    → keep_terms (lines b'+' (w ++ plus_words ws)) ≡ map to_lower w ∷ lower_words ws
unfolding keep_terms lower_words
keep_terms-words [] ws hw h = absurd (hw.ne_nil refl)
keep_terms-words (c ∷ w) [] hw h =
    ap (λ s. keep_terms (lines b'+' s)) (append-nil (c ∷ w))
    ∙ ap keep_terms (lines_last b'+' (c ∷ w) hw.no_plus hw.ne_nil)
keep_terms-words (c ∷ w) ((b, v) ∷ ws) hw (hv, h) =
    ap keep_terms (lines-append b'+' (c ∷ w) (v ++ plus_words ws) hw.no_plus)
    ∙ ap (◌∷◌ (map to_lower (c ∷ w))) (keep_terms-words v ws hv h)

behind_equals-append : (key q : Bytes) → Lacks b'=' key → behind_equals (key ++ b'=' ∷ q) ≡ q
unfolding behind_equals
behind_equals-append key q h = rw (find_char-append b'=' key q h, behind_equals) (drop_key key q)
  where
    drop_key : (k r : Bytes) → drop (suc (length k)) (k ++ b'=' ∷ r) ≡ r
    drop_key [] r = refl
    drop_key (c ∷ k) r = drop_key k r

-- The query "key=word" with further words behind "+" or "%20" is split into the words, in lower
-- case, if no word is empty or holds '+' or '%', and the key holds no '='.
pub split_terms-words :
    (key w : Bytes) (ws : List (Bool × Bytes))
    → Lacks b'=' key
    → IsQueryWord w
    → All (λ e. IsQueryWord e.1) ws
    → split_terms (key ++ b'=' ∷ (w ++ more_words ws))
      ≡ map to_lower w ∷ map (λ e. map to_lower e.1) ws
unfolding split_terms lower_words
split_terms-words key w ws hk hw h =
    rw
      (
        behind_equals-append key (w ++ more_words ws) hk,
        replace_spaces-append w (more_words ws) hw.no_percent,
        replace_spaces-more_words ws h,
      )
      (keep_terms-words w ws hw h)
