-- ===== src/JobQueue/Conflict.antt =====
-- Which actions exclude one another.
use sdk_local_manager.Prelude.{
  ◌≡◌, refl, false, ◌||◌, List, [], ◌∷◌, arith, eq_iff, contains, Eq_ℕ, Eq_List,
}
use sdk_local_manager.Prelude.Text.{Text}
use sdk_local_manager.JobQueue.{Job, jobs_conflict, share}

share_nil : (xs : List Text) → share xs [] ≡ false
unfolding share
share_nil [] = refl
share_nil (x ∷ xs) = share_nil xs

share_cons : (y : Text) (xs ys : List Text) → share xs (y ∷ ys) ≡ (contains xs y || share xs ys)
unfolding share
share_cons y [] ys = refl
share_cons y (x ∷ xs) ys = ground (arith, share_cons y xs ys, eq_iff x y, eq_iff y x)

share_comm : (xs ys : List Text) → share xs ys ≡ share ys xs
unfolding share
share_comm [] ys = ground (arith, share_nil ys)
share_comm (x ∷ xs) ys = ground (arith, share_cons x ys xs, share_comm xs ys)

-- Exclusion is mutual: which of the two actions came first does not matter.
pub jobs_conflict_comm :
    (first second : Job) → jobs_conflict first second ≡ jobs_conflict second first
unfolding jobs_conflict
jobs_conflict_comm first second = ground (arith, share_comm first.resources second.resources)
