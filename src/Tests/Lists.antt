-- ===== src/Tests/Lists.antt =====
-- A list, at address 9, of the nodes 1, 2 and 3.
use quark_ts_cpp.Prelude.Returns.{Returns}
use quark_ts_cpp.Prelude.{true, zero, suc, ◌≡◌, refl, none, [], ◌∷◌, arith}
use quark_ts_cpp.Prelude.Int.{pos}
use quark_ts_cpp.DList.{Heap, DList, at_back, insert, remove}
use quark_ts_cpp.DList.Links.{node, IsList, Linked}
use quark_ts_cpp.DList.Insert.{IsNew, Inserted, insert-at_back}
use quark_ts_cpp.DList.InsertFront.{insert_last_faults}
use quark_ts_cpp.DList.Twice.{remove-insert}
use quark_ts_cpp.DList.Remove.{Removed}
use quark_ts_cpp.DList.RemoveAny.{remove_lem}

abbrev l0 : DList
l0 = record { self = 9; head = 1; tail = 3; size = 3 }

abbrev h0 : Heap
h0 (suc zero) = node 2 0 9
h0 (suc (suc zero)) = node 3 1 9
h0 (suc (suc (suc zero))) = node 0 2 9
h0 _ = node 0 0 0

l0-IsList : IsList h0 l0 (1 ∷ 2 ∷ 3 ∷ [])
unfolding Linked
l0-IsList = record {
  head_at = refl;
  tail_at = refl;
  size_at = refl;
  small = omega arith;
  links = (
    (λ e. absurd (omega arith)),
    refl,
    ((λ e. absurd (omega arith)), refl, ((λ e. absurd (omega arith)), refl, tt)),
  );
  distinct = (
    ((λ e. absurd (omega arith)), ((λ e. absurd (omega arith)), tt)),
    (((λ e. absurd (omega arith)), tt), (tt, tt)),
  );
}

new : IsNew h0 l0 (1 ∷ 2 ∷ 3 ∷ []) 4
new = record {
  real = λ e. absurd (omega arith);
  apart = (
    (λ e. absurd (omega arith)),
    ((λ e. absurd (omega arith)), ((λ e. absurd (omega arith)), tt)),
  );
  free = λ e. absurd (omega arith);
  room = omega arith;
}

insert-at_back_example :
    Returns (Inserted h0 l0 4 (1 ∷ 2 ∷ 3 ∷ []) (1 ∷ 2 ∷ 3 ∷ 4 ∷ [])) (insert l0 h0 4 at_back)
insert-at_back_example = insert-at_back (1 ∷ 2 ∷ 3 ∷ []) 4 l0-IsList new

insert_last_faults_example : insert l0 h0 4 (pos 2) ≡ none
insert_last_faults_example = insert_last_faults 4 2 1 (2 ∷ 3 ∷ []) l0-IsList new (omega arith)

remove_lem_example : Returns (Removed h0 l0 2 (1 ∷ 2 ∷ 3 ∷ []) (1 ∷ 3 ∷ [])) (remove l0 h0 2)
remove_lem_example = remove_lem (1 ∷ []) 2 (3 ∷ []) l0-IsList

remove-insert_example :
    Returns
      (λ r. Returns (λ t. (t.2 ≡ true) × IsList t.1 t.0 (1 ∷ 2 ∷ 3 ∷ [])) (remove r.0 r.1 4))
      (insert l0 h0 4 at_back)
remove-insert_example = remove-insert (1 ∷ 2 ∷ 3 ∷ []) 4 l0-IsList new
