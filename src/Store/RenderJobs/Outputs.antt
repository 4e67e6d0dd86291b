-- ===== src/Store/RenderJobs/Outputs.antt =====
-- The UNIQUE index on the output paths of active jobs, as a count.
use redline_os.Prelude.{
  refl, String, true, ◌≤◌, ◌≡◌, inl, inr, List, [], ◌∷◌, Option, none, some, arith, any, count,
  Bool-cases, string_eq, option_eq,
}
use redline_os.Prelude.Counting.{count_of_not_any, any_of_count}
use redline_os.Store.Rows.{RenderJob}
use redline_os.Store.RenderJobs.{occupies, is_taken, has_unique_outputs}

pub count-occupies :
    (path : String) (jobs : List RenderJob)
    → has_unique_outputs jobs ≡ true
    → count (occupies path) jobs ≤ 1
unfolding has_unique_outputs count
count-occupies path [] h = omega arith
count-occupies path (j ∷ jobs) h =
    ground (arith, count_of_not_any (occupies path) jobs, count-occupies path jobs)

taken_path :
    (j : RenderJob) (jobs : List RenderJob)
    → is_taken j jobs ≡ true
    → (path : String) × (occupies path j ≡ true) × (any (occupies path) jobs ≡ true)
taken_path j jobs taken = go j.output_path refl
  where
    go :
        (o : Option String)
        → j.output_path ≡ o
        → (path : String) × (occupies path j ≡ true) × (any (occupies path) jobs ≡ true)
    go none e = absurd (ground arith)
    go (some path) e = (path, ground arith, ground arith)

pub has_unique_outputs_of_count :
    (jobs : List RenderJob)
    → ((path : String) → count (occupies path) jobs ≤ 1)
    → has_unique_outputs jobs ≡ true
unfolding has_unique_outputs count
has_unique_outputs_of_count [] h = ground arith
has_unique_outputs_of_count (j ∷ jobs) h =
    let rest = has_unique_outputs_of_count jobs (λ path. ground (arith, h path)) in
    elim (Bool-cases (is_taken j jobs)) [
      | inl taken ↦
          let (path, mine, other) = taken_path j jobs taken in
          absurd (ground (arith, h path, any_of_count (occupies path) jobs other))
      | inr free ↦ rw free rest
    ]
