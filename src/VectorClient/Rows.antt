-- ===== src/VectorClient/Rows.antt =====
-- The rows of scores and the list of sources as the embedding service writes them.
use semantic_search_engine.Base.{
  ℕ, suc, ◌+◌, ◌≡◌, ◌≢◌, refl, ap, ap₂, sym, ◌∙◌, List, [], ◌∷◌, ◌++◌, append_assoc, Option, none,
  some, Bytes, arith, All, All-append, length, length-append, drop-append, take, drop, take-append,
  Option-cases, inl, inr,
}
use semantic_search_engine.Text.{find, lines}
use semantic_search_engine.Text.Lines.{Lacks, lines-append, lines_last}
use semantic_search_engine.Text.Search.{find_char-append, find_grow}
use semantic_search_engine.VectorClient.{
  sources_mark, keep_sources, parse_answer, tsv_line, tsv_lines, parse_tsv,
}

-- The lines of a text with a line break between each two and none at the end, as the service joins
-- them.
abbrev pub joined : List Bytes → Bytes
joined [] = []
joined (l ∷ []) = l
joined (l ∷ m ∷ ls) = l ++ 10 ∷ joined (m ∷ ls)

lines-joined : (ls : List Bytes) → All (λ l. (l ≢ []) × Lacks 10 l) ls → lines 10 (joined ls) ≡ ls
lines-joined [] h = unfold lines in refl
lines-joined (l ∷ []) ((ne, h), hs) = lines_last 10 l h ne
lines-joined (l ∷ m ∷ ls) ((ne, h), hs) =
    lines-append 10 l (joined (m ∷ ls)) h ∙ ap (◌∷◌ l) (lines-joined (m ∷ ls) hs)

-- "id<tab>score" lines, as the service writes them
abbrev pub row_lines : List (Bytes × Bytes) → List Bytes
row_lines [] = []
row_lines ((doc, score) ∷ rows) = (doc ++ 9 ∷ score) ∷ row_lines rows

abbrev pub rows_text : List (Bytes × Bytes) → Bytes
rows_text rows = joined (row_lines rows)

-- No tab in the name, no line break in either.
pub record IsRow (row : Bytes × Bytes) : Type 0 where
  pub no_tab : Lacks 9 row.0
  pub doc_line : Lacks 10 row.0
  pub score_line : Lacks 10 row.1

row_line-ne-nil : (doc score : Bytes) → doc ++ 9 ∷ score ≢ []
row_line-ne-nil [] score = λ e. cc
row_line-ne-nil (c ∷ doc) score = λ e. cc

row_lines-AreLines :
    (rows : List (Bytes × Bytes))
    → All IsRow rows
    → All (λ l. (l ≢ []) × Lacks 10 l) (row_lines rows)
row_lines-AreLines [] h = tt
row_lines-AreLines ((doc, score) ∷ rows) (r, h) = (
  (
    row_line-ne-nil doc score,
    All-append (λ c. c ≢ 10) doc (9 ∷ score) r.doc_line (omega arith, r.score_line),
  ),
  row_lines-AreLines rows h,
)

drop_behind : (doc score : Bytes) → drop (suc (length doc)) (doc ++ 9 ∷ score) ≡ score
drop_behind [] score = refl
drop_behind (c ∷ doc) score = drop_behind doc score

module _ {F : Type 0} (stof : Bytes → Option F) where
  -- The rows whose score is a number.
  abbrev scored_by : Bytes → Option F → List (Bytes × F) → List (Bytes × F)
  scored_by doc none rest = rest
  scored_by doc (some x) rest = (doc, x) ∷ rest

  abbrev pub scored : List (Bytes × Bytes) → List (Bytes × F)
  scored [] = []
  scored ((doc, score) ∷ rows) = scored_by doc (stof score) (scored rows)

  tsv_line-row :
      (doc score : Bytes) (rest : List (Bytes × F))
      → Lacks 9 doc
      → tsv_line stof (doc ++ 9 ∷ score) rest ≡ scored_by doc (stof score) rest
  unfolding tsv_line
  tsv_line-row doc score rest h = elim (Option-cases (stof score)) [
    | inl e ↦ rw (tsv_line, find_char-append 9 doc score h, drop_behind doc score, e) refl
    | inr (x, e) ↦
        rw
          (
            tsv_line,
            find_char-append 9 doc score h,
            drop_behind doc score,
            e,
            take-append doc (9 ∷ score),
          )
          refl
  ]

  tsv_lines-row :
      (doc score : Bytes) (ls : List Bytes)
      → Lacks 9 doc
      → tsv_lines stof ((doc ++ 9 ∷ score) ∷ ls) ≡ scored_by doc (stof score) (tsv_lines stof ls)
  unfolding tsv_lines
  tsv_lines-row [] score ls h = tsv_line-row [] score (tsv_lines stof ls) h
  tsv_lines-row (c ∷ doc) score ls h = tsv_line-row (c ∷ doc) score (tsv_lines stof ls) h

  tsv_lines-row_lines :
      (rows : List (Bytes × Bytes)) → All IsRow rows → tsv_lines stof (row_lines rows) ≡ scored rows
  tsv_lines-row_lines [] h = unfold tsv_lines in refl
  tsv_lines-row_lines ((doc, score) ∷ rows) (r, h) =
      tsv_lines-row doc score (row_lines rows) r.no_tab
      ∙ ap (scored_by doc (stof score)) (tsv_lines-row_lines rows h)

  -- `ParseTsv` reads the rows that the service writes, with a line break between each two, in their
  -- order, and drops those whose score `stof` does not take, if no name holds a tab and nothing a
  -- line break.
  pub parse_tsv-rows_text :
      (rows : List (Bytes × Bytes)) → All IsRow rows → parse_tsv stof (rows_text rows) ≡ scored rows
  unfolding parse_tsv
  parse_tsv-rows_text rows h =
      ap (tsv_lines stof) (lines-joined (row_lines rows) (row_lines-AreLines rows h))
      ∙ tsv_lines-row_lines rows h

-- the names of the sources, with a line break between each two
abbrev pub sources_text : List Bytes → Bytes
sources_text ss = joined ss

-- Names that are not empty and hold no line break.
abbrev pub AreSources : List Bytes → Type 0
AreSources = All (λ s. (s ≢ []) × Lacks 10 s)

keep_sources_all : (ss : List Bytes) → AreSources ss → keep_sources ss ≡ ss
unfolding keep_sources
keep_sources_all [] h = refl
keep_sources_all ([] ∷ ss) ((ne, hs), h) = absurd (ne refl)
keep_sources_all ((c ∷ s) ∷ ss) ((ne, hs), h) = ap (◌∷◌ (c ∷ s)) (keep_sources_all ss h)

keep_sources_text :
    (ss : List Bytes) → AreSources ss → keep_sources (lines 10 (sources_text ss)) ≡ ss
keep_sources_text ss h = ap keep_sources (lines-joined ss h) ∙ keep_sources_all ss h

parse_marked :
    (body : Bytes) (sep : ℕ)
    → body ≢ []
    → find sources_mark body ≡ some sep
    → parse_answer body
      ≡ (take sep body, keep_sources (lines 10 (drop (sep + length sources_mark) body)))
unfolding parse_answer
parse_marked [] sep ne e = absurd (ne refl)
parse_marked (b ∷ body) sep ne e = rw (parse_answer, e) refl

marked_ne_nil : (answer rest : Bytes) → answer ++ (sources_mark ++ rest) ≢ []
marked_ne_nil [] rest = λ e. cc
marked_ne_nil (c ∷ answer) rest = λ e. cc

-- `Ask` splits a response of the service, in which the names of the sources have a line break
-- between each two, into the answer and the names, if the mark between them does not begin
-- earlier, and the names are not empty and hold no line break.
pub parse_answer-sources_text :
    (answer : Bytes) (sources : List Bytes)
    → find sources_mark (answer ++ sources_mark) ≡ some (length answer)
    → AreSources sources
    → parse_answer (answer ++ (sources_mark ++ sources_text sources)) ≡ (answer, sources)
parse_answer-sources_text answer sources first h =
    parse_marked whole (length answer) (marked_ne_nil answer (sources_text sources)) (
      ap (find sources_mark) (sym whole_is)
      ∙ find_grow sources_mark (answer ++ sources_mark) (sources_text sources) (length answer)
          first)
    ∙ ap₂ (λ x y. (x, keep_sources (lines 10 y)))
        (take-append answer (sources_mark ++ sources_text sources))
        (ap₂ drop (sym (length-append answer sources_mark)) (sym whole_is)
          ∙ drop-append (answer ++ sources_mark) (sources_text sources))
    ∙ ap (λ x. (answer, x)) (keep_sources_text sources h)
  where
    whole : Bytes
    whole = answer ++ (sources_mark ++ sources_text sources)

    whole_is : (answer ++ sources_mark) ++ sources_text sources ≡ whole
    whole_is = append_assoc answer sources_mark (sources_text sources)
