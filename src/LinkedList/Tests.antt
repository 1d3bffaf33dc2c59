-- ===== src/LinkedList/Tests.antt =====
-- Two elements added, and the last of them removed again.
use bizcocho_os.Prelude.{refl, false, none, some, [], ◌∷◌, update, arith}
use bizcocho_os.LinkedList.{Store, new_list, add, to_begin, next, remove}
use bizcocho_os.LinkedList.Trace.{iterating, Runs, start, added, begun, stepped, removed}
use bizcocho_os.LinkedList.Walks.{Serves, Runs-Serves}

abbrev one : Store
one = record {
  list = record { first = 100; current = 0; to_remove = 0; size = 8 };
  heap = update (λ _. none) 100 (some (record { elem = 5; next = 0; prev = 0 }));
}

abbrev two : Store
two = record {
  list = record { first = 200; current = 0; to_remove = 0; size = 9 };
  heap =
      update (update one.heap 200 (some (record { elem = 6; next = 100; prev = 0 }))) 100
        (some (record { elem = 5; next = 0; prev = 200 }));
}

abbrev at_second : Store
at_second = record two { list = record { first = 200; current = 100; to_remove = 200; size = 9 } }

abbrev without : Store
without = record {
  list = record { first = 100; current = 100; to_remove = 0; size = 8 };
  heap = update (update two.heap 100 (some (record { elem = 5; next = 0; prev = 0 }))) 200 none;
}

reached : Runs 7 (iterating [] (5 ∷ []) false) without
unfolding new_list add to_begin next remove
reached =
    removed
      (stepped
        (begun (
          added {s' = two} 200 6 (added {s' = one} 100 5 (start refl) refl (omega arith) refl) refl
            (omega arith) refl))
        refl)
      refl

Runs-Serves_example : Serves 7 (iterating [] (5 ∷ []) false) without
Runs-Serves_example = Runs-Serves reached
