-- ===== src/HttpServer/Tracking.antt =====
-- The index and the embedding service against the files that change.
use semantic_search_engine.Base.{
  ◌≡◌, ◌⊎◌, inl, inr, refl, ap, sym, subst, ◌∙◌, Bool, true, false, List, [], ◌∷◌, ◌++◌, some,
  Bytes, codes, Bool-cases, bytes_discrete, if_pos, drop,
}
use semantic_search_engine.Exception.{ok}
use semantic_search_engine.FileSystem.{FileSystem, WritesBack}
use semantic_search_engine.HttpRequest.{Request}
use semantic_search_engine.HttpResponse.{is_success, make_response}
use semantic_search_engine.HttpServer.Routes.{
  Server, add_doc, remove_doc, equals, after_put, after_delete, handle_static_mutation,
  not_implemented,
}
use semantic_search_engine.InvertedIndex.{search_and_rank}
use semantic_search_engine.InvertedIndex.Corpus.{
  change, add_file-Represents, remove_file-Represents,
}
use semantic_search_engine.InvertedIndex.Counts.{tokens_of}
use semantic_search_engine.InvertedIndex.Search.{Corpus, Represents, answer, search-answer}
use semantic_search_engine.InvertedIndex.Valid.{adds, removes}
use semantic_search_engine.Map.{find}
use semantic_search_engine.StaticFile.{static_put, static_delete, put_response}
use semantic_search_engine.StaticFile.Deletes.{static_delete_cases}
use semantic_search_engine.StaticFile.Outcomes.{put_response_succeeds}
use semantic_search_engine.StaticFile.Writes.{static_put_cases}
use semantic_search_engine.Text.Number.{to_string}

not_implemented_fails : is_success not_implemented ≡ false
unfolding is_success to_string make_response
not_implemented_fails = refl

module _ (fs : FileSystem) where
  -- A success that stored `body` under `path`: the files hold it, the index stands for it in place
  -- of what it held of `path` before, and the embedding service is told.
  pub record Stored (s : Server fs) (path body : Bytes) (corpus : Corpus)
      (result : Server fs × Bytes) : Type 0 where
    pub succeeds : is_success result.1 ≡ true
    pub holds : fs.read result.0.files path ≡ some body
    pub represents : Represents result.0.index (change (adds path (some body)) corpus)
    pub told : result.0.calls ≡ s.calls ++ add_doc path body ∷ []

  -- A success that removed `path`, which was there, from the files and from the index; the embedding
  -- service is told.
  pub record Dropped (s : Server fs) (path : Bytes) (corpus : Corpus) (result : Server fs × Bytes)
      : Type 0 where
    pub succeeds : is_success result.1 ≡ true
    pub was_there : fs.exists s.files path ≡ ok true
    pub gone : fs.exists result.0.files path ≡ ok false
    pub represents : Represents result.0.index (change (removes path) corpus)
    pub told : result.0.calls ≡ s.calls ++ remove_doc path ∷ []

  -- No success: the index and the embedding service are as before.
  pub record Kept (s : Server fs) (result : Server fs × Bytes) : Type 0 where
    pub fails : is_success result.1 ≡ false
    pub same_index : result.0.index ≡ s.index
    pub same_calls : result.0.calls ≡ s.calls

  put_cases :
      (s : Server fs) (root path body : Bytes) (overwrite : Bool) (corpus : Corpus)
      → WritesBack fs path
      → Represents s.index corpus
      → Stored s path body corpus
          (after_put fs s path body (static_put fs s.files root path body overwrite))
        ⊎ Kept s (after_put fs s path body (static_put fs s.files root path body overwrite))
  put_cases s root path body overwrite corpus wb r =
      elim (static_put_cases fs s.files root path body overwrite) [
        | inl w ↦ inl (
            subst (λ x. Stored s path body corpus (after_put fs s path body x)) (sym w.result_is)
              (stored w.opened w.existed (
                wb.read_back s.files w.opened body w.opens
                  (wb.stays_good s.files w.opened body w.opens))))
        | inr w ↦ inr (kept (static_put fs s.files root path body overwrite) w.1)
      ]
    where
      stored :
          (opened : fs.State) (existed : Bool)
          → fs.read (fs.write opened path body).0 path ≡ some body
          → Stored s path body corpus
              (after_put fs s path body ((fs.write opened path body).0, put_response existed))
      stored opened existed e =
          unfold after_put in
          rw (put_response_succeeds existed) (record {
            succeeds = put_response_succeeds existed;
            holds = e;
            represents = rw e (add_file-Represents path (some body) s.index corpus r);
            told = refl;
          })

      kept : (x : fs.State × Bytes) → is_success x.1 ≡ false → Kept s (after_put fs s path body x)
      kept (st, resp) e =
          unfold after_put in rw e (record { fails = e; same_index = refl; same_calls = refl })

  delete_cases :
      (s : Server fs) (root path : Bytes) (corpus : Corpus)
      → WritesBack fs path
      → Represents s.index corpus
      → Dropped s path corpus (after_delete fs s path (static_delete fs s.files root path))
        ⊎ Kept s (after_delete fs s path (static_delete fs s.files root path))
  delete_cases s root path corpus wb r = elim (static_delete_cases fs s.files root path) [
    | inl (d, e) ↦ inl (
        dropped (static_delete fs s.files root path) e d.existed
          (ap (λ x. fs.exists x.0 path) d.result_is ∙ wb.gone s.files d.removed))
    | inr (e, d) ↦ inr (kept (static_delete fs s.files root path) e)
  ]
    where
      dropped :
          (x : fs.State × Bytes)
          → is_success x.1 ≡ true
          → fs.exists s.files path ≡ ok true
          → fs.exists x.0 path ≡ ok false
          → Dropped s path corpus (after_delete fs s path x)
      dropped (st, resp) e there none_left =
          unfold after_delete in
          rw e (record {
            succeeds = e;
            was_there = there;
            gone = none_left;
            represents = remove_file-Represents path s.index corpus r;
            told = refl;
          })

      kept : (x : fs.State × Bytes) → is_success x.1 ≡ false → Kept s (after_delete fs s path x)
      kept (st, resp) e =
          unfold after_delete in rw e (record { fails = e; same_index = refl; same_calls = refl })

  -- A request on a static path either stores its body under the path, so that the files hold it,
  -- the index represents it and the embedding service is told; or removes the path, which existed
  -- and exists no more, takes it out of the index and tells the service; or reports no success and
  -- leaves index and service alone. It needs that the index represents some files before, and of
  -- the file system that writes on the path do not fail half-way and are read back, and that what
  -- it has removed is gone.
  pub mutation_tracks :
      (root : Bytes) (s : Server fs) (r : Request) (corpus : Corpus)
      → WritesBack fs (drop 8 r.path)
      → Represents s.index corpus
      → Stored s (drop 8 r.path) r.body corpus (handle_static_mutation fs root s r)
        ⊎ Dropped s (drop 8 r.path) corpus (handle_static_mutation fs root s r)
        ⊎ Kept s (handle_static_mutation fs root s r)
  unfolding handle_static_mutation
  mutation_tracks root s r corpus wb rep = elim (Bool-cases (equals r.method (codes "PUT"))) [
    | inl h1 ↦ rw h1 (stored_or_kept (put_cases s root (drop 8 r.path) r.body true corpus wb rep))
    | inr h1 ↦ elim (Bool-cases (equals r.method (codes "POST"))) [
      | inl h2 ↦
          rw (h1, h2) (stored_or_kept (put_cases s root (drop 8 r.path) r.body false corpus wb rep))
      | inr h2 ↦ elim (Bool-cases (equals r.method (codes "DELETE"))) [
        | inl h3 ↦ rw (h1, h2, h3) (inr (delete_cases s root (drop 8 r.path) corpus wb rep))
        | inr h3 ↦
            rw (h1, h2, h3)
              (inr (
                inr
                  (record { fails = not_implemented_fails; same_index = refl; same_calls = refl })))
      ]
    ]
  ]
    where
      stored_or_kept :
          {x : Server fs × Bytes}
          → Stored s (drop 8 r.path) r.body corpus x ⊎ Kept s x
          → Stored s (drop 8 r.path) r.body corpus x ⊎ Dropped s (drop 8 r.path) corpus x ⊎ Kept s x
      stored_or_kept (inl a) = inl a
      stored_or_kept (inr b) = inr (inr b)

  put_handled :
      (root : Bytes) (s : Server fs) (r : Request)
      → r.method ≡ codes "PUT"
      → handle_static_mutation fs root s r
        ≡ after_put fs s
            (drop 8 r.path)
            r.body
            (static_put fs s.files root (drop 8 r.path) r.body true)
  unfolding handle_static_mutation
  put_handled root s r put = rw (if_pos (bytes_discrete r.method (codes "PUT")) put) refl

  -- After a PUT that succeeds, a search finds the file exactly if the query has terms and each is
  -- a token of the body of the PUT, with the sum of their frequencies there as its score. It needs
  -- that writes on the path do not fail half-way and are read back, and that the index represented
  -- some files before.
  pub search_after_put :
      (root : Bytes) (s : Server fs) (r : Request) (corpus : Corpus) (ts : List Bytes)
      → WritesBack fs (drop 8 r.path)
      → Represents s.index corpus
      → r.method ≡ codes "PUT"
      → is_success (handle_static_mutation fs root s r).1 ≡ true
      → find bytes_discrete
          (drop 8 r.path)
          (search_and_rank (handle_static_mutation fs root s r).0.index ts)
        ≡ answer ts (tokens_of (some r.body))
  search_after_put root s r corpus ts wb rep put h =
      elim (put_cases s root (drop 8 r.path) r.body true corpus wb rep) [
        | inl st ↦ rw (put_handled root s r put) (
            search-answer (drop 8 r.path) _ _ ts st.represents
            ∙ ap (answer ts) (if_pos (bytes_discrete (drop 8 r.path) (drop 8 r.path)) refl _ _))
        | inr k ↦ cc (h, k.fails, put_handled root s r put)
      ]
