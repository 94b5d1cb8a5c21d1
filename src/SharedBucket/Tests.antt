-- ===== src/SharedBucket/Tests.antt =====
-- A bucket of two interactions and a reader.
use interactsh_lite.SharedBucket.Refinement.{
  Refines, new_shared_bucket-Refines, append-Refines, read_from-Refines,
}
use interactsh_lite.SharedBucket.{SharedBucket, new_shared_bucket, append, read_from}
use interactsh_lite.Prelude.Text.{codes}
use interactsh_lite.Prelude.{◌≡◌, [], ◌∷◌}

abbrev bucket : SharedBucket
bucket = new_shared_bucket 2 1000 0

abbrev bucket-Refines : Refines bucket [] 0 (λ c. 0)
bucket-Refines = new_shared_bucket-Refines 2 1000 0

appended-Refines : Refines (append (codes "a") bucket) (codes "a" ∷ []) 0 (λ c. 0)
unfolding new_shared_bucket
appended-Refines = append-Refines (codes "a") bucket [] 0 (λ c. 0) bucket-Refines

read_from-Refines_example : (read_from (codes "c") 5 (append (codes "a") bucket)).0 ≡ codes "a" ∷ []
read_from-Refines_example =
    (read_from-Refines (codes "c") 5 (append (codes "a") bucket) (codes "a" ∷ []) 0 (λ c. 0)
      appended-Refines).0
