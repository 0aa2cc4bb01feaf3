-- ===== src/Tests/Reindex.antt =====
-- Concrete inputs for the theorems on the reindex queue, and runs of its definitions.
use turbovault.Common.{
  ℕ, zero, suc, ◌<◌, String, ◌≡◌, refl, true, false, none, some, [], ◌∷◌, arith,
}
use turbovault.Core.Error.{ok, err}
use turbovault.Links.Edges.{IsConsistent}
use turbovault.Reindex.{
  local, external, new, watch_turn, Sources, ReindexQueue, first_parent_range, drain_through,
}
use turbovault.Reindex.Range.{Ended, first_parent_range-Answers}
use turbovault.Reindex.Drain.{drain_through-IsConsistent}
use turbovault.Tests.MemoryGraph.{memory, memory-laws}
use turbovault.Tests.Links.{o, file, link_to, graph, sound}

-- The commits 0, 1, 2, …, each the first parent of the next one; commit 1 cannot be compared, commit 2
-- adds `c.md`, every other one removes `b.md`.
abbrev history : Sources String (Unit {0})
history = record {
  first_parent = λ c. elim c [ zero ↦ ok none | suc p ↦ ok (some p) ];
  diff_path_statuses = λ parent c. elim c [
    | suc (suc zero) ↦ ok (("c.md", true) ∷ [])
    | suc zero ↦ err "missing"
    | _ ↦ ok (("b.md", false) ∷ [])
  ];
  parse_file = λ c path. ok (file path (link_to "a" ∷ []));
  full_path = λ path. path;
}

older_history : (c p : ℕ) → history.first_parent c ≡ ok (some p) → p < c
older_history zero p h = absurd (ground arith)
older_history (suc c) p h = ground (arith, h)

first_parent_range-Answers_example :
    Ended history (some 1) 4 (first_parent_range history 5 (some 1) 4)
first_parent_range-Answers_example =
    first_parent_range-Answers history (λ c. c) older_history 5 (some 1) 4 (omega arith)

range_of_three : first_parent_range history 5 (some 1) 4 ≡ some (ok (some (2 ∷ 3 ∷ 4 ∷ [])))
unfolding first_parent_range
range_of_three = refl

not_reached : first_parent_range history 5 (some 9) 4 ≡ some (ok none)
unfolding first_parent_range
not_reached = refl

abbrev queue : ReindexQueue
queue = record {
  pending = record { oid = 1; origin = external } ∷ record { oid = 2; origin = local } ∷ [];
  cursor = none;
}

drain_through-IsConsistent_example :
    ((drain_through history o (memory false) queue graph).1.pending ≡ [])
    × ((drain_through history o (memory false) queue graph).1.cursor ≡ some 2)
    × IsConsistent o (memory false) (drain_through history o (memory false) queue graph).2
drain_through-IsConsistent_example =
    drain_through-IsConsistent history o (memory false) (memory-laws false) queue graph sound

changed : (drain_through history o (memory false) queue graph).0 ≡ ("c.md", true, local) ∷ []
unfolding drain_through
changed = refl

-- A poll that cannot read HEAD forgets it, and the next one queues the whole history again.
after_failed_poll : watch_turn history 5 (some 2) (watch_turn history 5 none (some 2, new)) ≡ (
  some 2,
  record {
    pending =
        record { oid = 0; origin = external }
        ∷ record { oid = 1; origin = external }
        ∷ record { oid = 2; origin = external }
        ∷ [];
    cursor = none;
  },
)
unfolding watch_turn
after_failed_poll = refl
