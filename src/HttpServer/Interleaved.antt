-- ===== src/HttpServer/Interleaved.antt =====
-- The index against the files, while several workers handle a PUT or a POST.
use semantic_search_engine.Base.{
  ℕ, ◌≡◌, ◌≢◌, ◌⊎◌, refl, ap, sym, subst, ◌∙◌, Bool, true, false, List, [], ◌∷◌, some, Bytes, codes,
  drop, All, Bool-cases, Option-cases, inl, inr, bytes_discrete, if_pos, if_neg,
}
use semantic_search_engine.FileSystem.{FileSystem}
use semantic_search_engine.HttpRequest.{Request}
use semantic_search_engine.HttpServer.Mutations.{
  Stage, starts, writes, Begun, Failed, put_stage_cases, indexes_put, indexes_delete, tells, over,
  Site, put_stage, change_files, stage_step, site_at, site_run,
}
use semantic_search_engine.HttpServer.Routes.{equals, Server, add_doc}
use semantic_search_engine.InvertedIndex.{search_and_rank}
use semantic_search_engine.InvertedIndex.Corpus.{change, add_file-Represents}
use semantic_search_engine.InvertedIndex.Counts.{tokens_of}
use semantic_search_engine.InvertedIndex.Search.{Corpus, Represents, answer, search-answer}
use semantic_search_engine.InvertedIndex.Valid.{adds}
use semantic_search_engine.Map.{find}
use semantic_search_engine.StaticFile.Outcomes.{put_response_succeeds}
use semantic_search_engine.ThreadPool.{get_elem?, set}
use semantic_search_engine.ThreadPool.Places.{All-set, All-get, All-set_here, All-set_back}

-- The worker handles no DELETE.
abbrev pub NoDelete : Stage → Type 0
NoDelete (starts r) = equals r.method (codes "DELETE") ≡ false
NoDelete (indexes_delete rel) = ⊥
NoDelete (writes rel body existed) = Unit
NoDelete (indexes_put rel body) = Unit
NoDelete (tells call) = Unit
NoDelete over = Unit

-- The worker has not opened the file `p` without having changed the index behind that.
abbrev pub Idle : Bytes → Stage → Type 0
Idle p (writes rel body existed) = rel ≢ p
Idle p (indexes_put rel body) = rel ≢ p
Idle p (starts r) = Unit
Idle p (indexes_delete rel) = Unit
Idle p (tells call) = Unit
Idle p over = Unit

-- Opening and writing another path leave the file `p` alone.
pub record WritesApart (fs : FileSystem) (p : Bytes) : Type 0 where
  pub opening :
      (st opened : fs.State) (q : Bytes)
      → q ≢ p
      → fs.truncate st q ≡ some opened
      → fs.read opened p ≡ fs.read st p
  pub writing :
      (st : fs.State) (q contents : Bytes)
      → q ≢ p
      → fs.read (fs.write st q contents).0 p ≡ fs.read st p

module _ (fs : FileSystem) (files_root p : Bytes) (apart : WritesApart fs p) where
  -- Where no worker is behind with `p`, the index has the tokens of the file.
  abbrev Follows : fs.State → List Stage → Corpus → Type 0
  Follows files stages corpus = All (Idle p) stages → corpus p ≡ tokens_of (fs.read files p)

  abbrev Inv : Site fs → Type 0
  Inv site =
      All NoDelete site.stages
      × ((corpus : Corpus) × Represents site.server.index corpus
          × Follows site.server.files site.stages corpus)

  -- A step that changes neither the index nor the file, behind which the worker is not behind.
  still :
      (files files' : fs.State) (stages : List Stage) (i : ℕ) (stage stage' : Stage)
      (corpus : Corpus)
      → get_elem? stages i ≡ some stage
      → (Idle p stage' → Idle p stage × (fs.read files' p ≡ fs.read files p))
      → Follows files stages corpus
      → Follows files' (set stages i stage') corpus
  still files files' stages i stage stage' corpus e same follows all =
      let (before, read) = same (All-set_here (Idle p) stages i stage' stage e all) in
      follows (All-set_back (Idle p) stages i stage' stage e before all) ∙ ap tokens_of (sym read)

  abbrev stepped : ℕ → Site fs → Server fs × Stage → Site fs
  stepped i site next = record { server = next.0; stages = set site.stages i next.1 }

  put-Inv :
      (site : Site fs) (i : ℕ) (r : Request) (q body : Bytes) (overwrite : Bool)
      → get_elem? site.stages i ≡ some (starts r)
      → Begun fs files_root site.server q body overwrite
        ⊎ Failed fs files_root site.server q body overwrite
      → Inv site
      → Inv (stepped i site (put_stage fs files_root site.server q body overwrite))
  put-Inv site i r q body overwrite e (inl (existed, st, t, same, result))
        (nd, (corpus, rep, follows)) =
      subst (λ x. Inv (stepped i site x)) (sym same)
        (
          All-set NoDelete site.stages i (writes q body existed) nd tt,
          (
            corpus,
            rep,
            still site.server.files st site.stages i (starts r) (writes q body existed) corpus e
                (λ other. (tt, apart.opening site.server.files st q other t)) follows,
          ),
        )
  put-Inv site i r q body overwrite e (inr (same, refused)) (nd, (corpus, rep, follows)) =
      subst (λ x. Inv (stepped i site x)) (sym same)
        (
          All-set NoDelete site.stages i over nd tt,
          (
            corpus,
            rep,
            still site.server.files site.server.files site.stages i (starts r) over corpus e
                (λ _. (tt, refl)) follows,
          ),
        )

  change-Inv :
      (site : Site fs) (i : ℕ) (r : Request)
      → get_elem? site.stages i ≡ some (starts r)
      → Inv site
      → Inv (stepped i site (change_files fs files_root site.server r))
  unfolding change_files
  change-Inv site i r e inv = elim (Bool-cases (equals r.method (codes "PUT"))) [
    | inl m ↦
        by (put_stage fs files_root site.server q r.body true) (rw (change_files, m) refl)
          (put true)
    | inr m ↦ elim (Bool-cases (equals r.method (codes "POST"))) [
      | inl n ↦
          by (put_stage fs files_root site.server q r.body false) (rw (change_files, m, n) refl)
            (put false)
      | inr n ↦
          let d : equals r.method (codes "DELETE") ≡ false =
            All-get NoDelete site.stages i (starts r) inv.0 e in
          by (site.server, over) (rw (change_files, m, n, d) refl) (stays over tt (λ _. (tt, refl)))
    ]
  ]
    where
      q : Bytes
      q = drop 8 r.path

      put :
          (overwrite : Bool)
          → Inv (stepped i site (put_stage fs files_root site.server q r.body overwrite))
      put overwrite =
          put-Inv site i r q r.body overwrite e
            (put_stage_cases fs files_root site.server q r.body overwrite) inv

      by :
          (x : Server fs × Stage)
          → change_files fs files_root site.server r ≡ x
          → Inv (stepped i site x)
          → Inv (stepped i site (change_files fs files_root site.server r))
      by x h inv' = subst (λ y. Inv (stepped i site y)) (sym h) inv'

      stays :
          (stage : Stage)
          → NoDelete stage
          → (Idle p stage → Unit {0} × (fs.read site.server.files p ≡ fs.read site.server.files p))
          → Inv (stepped i site (site.server, stage))
      stays stage nd same =
          let (all, (corpus, rep, follows)) = inv in
          (
            All-set NoDelete site.stages i stage all nd,
            (
              corpus,
              rep,
              still site.server.files site.server.files site.stages i (starts r) stage corpus e same
                  follows,
            ),
          )

  stage-Inv :
      (site : Site fs) (i : ℕ) (stage : Stage)
      → get_elem? site.stages i ≡ some stage
      → Inv site
      → Inv (stepped i site (stage_step fs files_root stage site.server))
  unfolding stage_step
  stage-Inv site i (starts r) e inv = change-Inv site i r e inv
  stage-Inv site i (writes q body existed) e (nd, (corpus, rep, follows)) =
      rw (put_response_succeeds existed) (
        All-set NoDelete site.stages i (indexes_put q body) nd tt,
        (
          corpus,
          rep,
          still site.server.files (fs.write site.server.files q body).0 site.stages i
              (writes q body existed) (indexes_put q body) corpus e
              (λ other. (other, apart.writing site.server.files q body other)) follows,
        ),
      )
  stage-Inv site i (indexes_put q body) e (nd, (corpus, rep, follows)) =
      let contents = fs.read site.server.files q in
      (
        All-set NoDelete site.stages i (tells (add_doc q body)) nd tt,
        (
          change (adds q contents) corpus,
          add_file-Represents q contents site.server.index corpus rep,
          λ all. elim (bytes_discrete q p) [
            | yes same ↦
                if_pos (bytes_discrete q p) same (tokens_of contents) (corpus p)
                ∙ ap (λ x. tokens_of (fs.read site.server.files x)) same
            | no other ↦
                if_neg (bytes_discrete q p) other (tokens_of contents) (corpus p)
                ∙ follows (
                    All-set_back (Idle p) site.stages i (tells (add_doc q body))
                      (indexes_put q body) e other all)
          ],
        ),
      )
  stage-Inv site i (indexes_delete q) e (nd, rest) =
      absurd (All-get NoDelete site.stages i (indexes_delete q) nd e)
  stage-Inv site i (tells call) e (nd, (corpus, rep, follows)) = (
    All-set NoDelete site.stages i over nd tt,
    (
      corpus,
      rep,
      still site.server.files site.server.files site.stages i (tells call) over corpus e
          (λ _. (tt, refl)) follows,
    ),
  )
  stage-Inv site i over e (nd, (corpus, rep, follows)) = (
    All-set NoDelete site.stages i over nd tt,
    (
      corpus,
      rep,
      still site.server.files site.server.files site.stages i over over corpus e (λ _. (tt, refl))
          follows,
    ),
  )

  site-Inv : (is : List ℕ) (site : Site fs) → Inv site → Inv (site_run fs files_root is site)
  unfolding site_run site_at
  site-Inv [] site inv = inv
  site-Inv (i ∷ is) site inv = elim (Option-cases (get_elem? site.stages i)) [
    | inl e ↦
        site-Inv is (site_at fs files_root (get_elem? site.stages i) i site)
          (subst (λ x. Inv (site_at fs files_root x i site)) (sym e) inv)
    | inr (stage, e) ↦
        site-Inv is (site_at fs files_root (get_elem? site.stages i) i site)
          (subst (λ x. Inv (site_at fs files_root x i site)) (sym e) (stage-Inv site i stage e inv))
  ]

  -- While any number of workers handle PUT and POST requests, in every order of their steps, a
  -- search finds the file `p` by what the files then hold under `p`, as soon as no worker has
  -- opened that file without having changed the index behind that. It needs that this was so at the
  -- start, and that opening and writing other paths leave the file alone.
  pub index_follows :
      (is : List ℕ) (site : Site fs) (corpus : Corpus) (ts : List Bytes)
      → All NoDelete site.stages
      → Represents site.server.index corpus
      → corpus p ≡ tokens_of (fs.read site.server.files p)
      → All (Idle p) (site_run fs files_root is site).stages
      → find bytes_discrete p (search_and_rank (site_run fs files_root is site).server.index ts)
        ≡ answer ts (tokens_of (fs.read (site_run fs files_root is site).server.files p))
  index_follows is site corpus ts nd rep start idle =
      let (nd', (corpus', rep', follows)) = site-Inv is site (nd, (corpus, rep, λ _. start)) in
      search-answer p (site_run fs files_root is site).server.index corpus' ts rep'
      ∙ ap (answer ts) (follows idle)
