-- ===== src/Queues.antt =====
-- The two queues of src/queues/index.ts, as far as BullMQ documents `queue.add` with a custom job id.
use mathlib.Core.List.{Memᴰ}
use substrata_backend.Prelude.{
  ℕ, ◌≡◌, refl, ◌⊎◌, inl, inr, String, Bool, true, false, ◌&&◌, Option, none, some, List, [], ◌∷◌,
  ◌++◌, if◌then◌else◌, Bool-cases, arith,
}
use substrata_backend.Prelude.Text.{str_eq, eq_iff}
use substrata_backend.Store.{AllRows, any_row, any_row-append}
use substrata_backend.World.{Env, Job}

-- Whether two jobs have one id; a job without one is like no other.
abbrev pub same_id : Option String → Option String → Bool
same_id (some a) (some b) = str_eq a b
same_id _ _ = false

abbrev pub same_job : Job → Job → Bool
same_job a b = same_id a.job_id b.job_id

-- A job whose id is in the queue already is not added.
abbrev pub with_job : Job → List Job → List Job
with_job j q = if any_row (same_job j) q then q else q ++ j ∷ []

-- `add` rejects, or it adds the job, unless the queue holds one with its id.
abbrev pub AddsOnce : Env → Type 0
AddsOnce env =
    (n : ℕ) (q : List Job) (j : Job)
    → (env.queue_add n q j ≡ none) ⊎ (env.queue_add n q j ≡ some (with_job j q))

-- `add` rejects this job, at some time.
abbrev pub Rejects : Env → Job → Type 0
Rejects env j = (n : ℕ) × (q : List Job) × (env.queue_add n q j ≡ none)

-- A job with the id of another, about the same row.
abbrev pub stands_for : Job → Job → Bool
stands_for j k = same_job j k && str_eq k.subject j.subject

AllRows-snoc :
    {A : Type 0} (P : A → Type 0) (rs : List A) (r : A)
    → AllRows P rs
    → P r
    → AllRows P (rs ++ r ∷ [])
AllRows-snoc P [] r h p = (p, tt)
AllRows-snoc P (x ∷ rs) r (here, others) p = (here, AllRows-snoc P rs r others p)

-- A family of jobs, of which those with one id are about one row.
pub record IsNaming {K : Type 0} (Good : K → Type 0) (made : K → Job) : Type 0 where
  pub own : (x : K) → same_job (made x) (made x) ≡ true
  pub agree :
      (x y : K)
      → Good x
      → Good y
      → same_job (made x) (made y) ≡ true
      → (made y).subject ≡ (made x).subject

module _ {K : Type 0} (Good : K → Type 0) (made : K → Job) where
  -- Every job of the queue that has an id of the family is about the row that this id is for.
  abbrev pub Named : List Job → Type 0
  Named q =
      AllRows (λ j. (x : K) → Good x → same_job (made x) j ≡ true → j.subject ≡ (made x).subject) q

  -- The queue holds a job for x: one with the id of its job that is about the same row.
  abbrev pub Holds : List Job → K → Type 0
  Holds q x = any_row (stands_for (made x)) q ≡ true

  abbrev pub with_jobs : List K → List Job → List Job
  with_jobs [] q = q
  with_jobs (x ∷ xs) q = with_jobs xs (with_job (made x) q)

  holds_named :
      (q : List Job) (x : K) → Named q → Good x → any_row (same_job (made x)) q ≡ true → Holds q x
  holds_named [] x named good h = cc
  holds_named (j ∷ q) x (here, others) good h = elim (Bool-cases (same_job (made x) j)) [
    | inl same ↦
        let about : str_eq j.subject (made x).subject ≡ true = (eq_iff _ _).1 (here x good same) in
        rw same (rw about refl)
    | inr other ↦ let rest = holds_named q x others good (ground arith) in ground arith
  ]

  with_job-keeps :
      (p : Job → Bool) (j : Job) (q : List Job)
      → any_row p q ≡ true
      → any_row p (with_job j q) ≡ true
  with_job-keeps p j q h = ground (arith, any_row-append p q (j ∷ []))

  with_jobs-keeps :
      (p : Job → Bool) (xs : List K) (q : List Job)
      → any_row p q ≡ true
      → any_row p (with_jobs xs q) ≡ true
  with_jobs-keeps p [] q h = h
  with_jobs-keeps p (x ∷ xs) q h =
      with_jobs-keeps p xs (with_job (made x) q) (with_job-keeps p (made x) q h)

  module _ (naming : IsNaming Good made) where
    with_job-has : (x : K) (q : List Job) → any_row (same_job (made x)) (with_job (made x) q) ≡ true
    with_job-has x q =
        ground (arith, any_row-append (same_job (made x)) q (made x ∷ []), naming.own x)

    with_job-Named : (x : K) (q : List Job) → Good x → Named q → Named (with_job (made x) q)
    with_job-Named x q good named = elim (Bool-cases (any_row (same_job (made x)) q)) [
      | inl held ↦ rw held named
      | inr free ↦
          rw free (AllRows-snoc _ q (made x) named (λ y fine same. naming.agree y x fine good same))
    ]

    pub with_jobs-Named :
        (xs : List K) (q : List Job) → AllRows Good xs → Named q → Named (with_jobs xs q)
    with_jobs-Named [] q good named = named
    with_jobs-Named (x ∷ xs) q (here, others) named =
        with_jobs-Named xs _ others (with_job-Named x q here named)

    with_jobs-has :
        (xs : List K) (q : List Job)
        → AllRows (λ x. any_row (same_job (made x)) (with_jobs xs q) ≡ true) xs
    with_jobs-has [] q = tt
    with_jobs-has (x ∷ xs) q =
        (with_jobs-keeps (same_job (made x)) xs _ (with_job-has x q), with_jobs-has xs _)

    all_held :
        (q : List Job) (xs : List K)
        → Named q
        → AllRows Good xs
        → AllRows (λ x. any_row (same_job (made x)) q ≡ true) xs
        → AllRows (Holds q) xs
    all_held q [] named good has = tt
    all_held q (x ∷ xs) named (fine, others) (here, rest) =
        (holds_named q x named fine here, all_held q xs named others rest)

    -- After its jobs were added, the queue holds a job for each member of a list.
    pub with_jobs-Holds :
        (xs : List K) (q : List Job)
        → AllRows Good xs
        → Named q
        → AllRows (Holds (with_jobs xs q)) xs
    with_jobs-Holds xs q good named =
        all_held (with_jobs xs q) xs (with_jobs-Named xs q good named) good (with_jobs-has xs q)

  -- One of the jobs of a list is rejected.
  abbrev pub RejectsOne : Env → List K → Type 0
  RejectsOne env xs = (x : K) × Memᴰ x xs × Rejects env (made x)

  pub rejects_later :
      (env : Env) (x : K) (xs : List K) → RejectsOne env xs → RejectsOne env (x ∷ xs)
  rejects_later env x xs (y, there, rejected) = (y, Memᴰ.tail there, rejected)
