-- ===== src/Tests/Files.antt =====
-- The operations on files, over files in memory.
use semantic_search_engine.Base.{◌≡◌, ◌↔◌, ◌⊎◌, inr, refl, true, false, [], Bytes, codes}
use semantic_search_engine.Exception.{ok}
use semantic_search_engine.HttpResponse.{is_success}
use semantic_search_engine.StaticFile.Outcomes.{outside_refused}
use semantic_search_engine.StaticFile.WithinRoot.{
  IsWithin, IsBelow, is_outside-IsWithin, is_outside_iff,
}
use semantic_search_engine.StaticFile.Deletes.{Deleted, NotDeleted, static_delete_cases}
use semantic_search_engine.StaticFile.{forbidden, is_outside, static_get, static_put, static_delete}
use semantic_search_engine.Text.{ends_with}
use semantic_search_engine.Tests.MemoryFiles.{memory_files}

abbrev root : Bytes
root = codes "/srv"

abbrev inside : Bytes
inside = codes "/srv/a.txt"

-- The prefix alone is not enough.
abbrev beside : Bytes
beside = codes "/srv_evil/a.txt"

beside_fails : is_outside root beside ≡ true
unfolding is_outside
beside_fails = refl

beside_outside : ¬ IsWithin root beside
beside_outside w = cc (beside_fails, (is_outside-IsWithin root beside).1 w)

outside_refused_example :
    (static_get memory_files [] root beside ≡ ok forbidden)
    × (static_put memory_files [] root beside (codes "x") true ≡ ([], forbidden))
    × (static_delete memory_files [] root beside ≡ ([], forbidden))
outside_refused_example =
    outside_refused memory_files [] root beside root beside (codes "x") true (λ e. cc) (refl, refl)
      beside_outside

static_delete_cases_example :
    (Deleted memory_files [] root inside (static_delete memory_files [] root inside)
      × (is_success (static_delete memory_files [] root inside).1 ≡ true))
    ⊎ NotDeleted memory_files [] inside (static_delete memory_files [] root inside)
static_delete_cases_example = static_delete_cases memory_files [] root inside

root-ends : ends_with root (codes "/") ≡ false
unfolding ends_with
root-ends = refl

is_outside_iff_example : (is_outside root inside ≡ false) ↔ IsBelow root inside
is_outside_iff_example = is_outside_iff root inside root-ends

-- Below the root "/" stands every path, and the test refuses it.
slash_refused : (is_outside (codes "/") (codes "/etc") ≡ true) × IsBelow (codes "/") (codes "/etc")
unfolding is_outside ends_with
slash_refused = (refl, inr (codes "etc", refl))
