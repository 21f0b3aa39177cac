-- ===== src/Middleware/Concurrency.antt =====
-- concurrency.go: at most so many requests at a time. A request takes a place of the semaphore when it
-- comes, or is refused, and gives it back when its handler returns; other requests run in between.
use gateway_runtime.Prelude.{
  ℕ, suc, ◌+◌, ◌-◌, ◌∙◌, ap, List, [], ◌∷◌, ◌++◌, ◌≤◌, ◌≡◌, refl, not, ltb, if◌then◌else◌, arith,
  ltb→lt, Bool-cases, inl, inr,
}
use gateway_runtime.Duration.{ℤ, is_positive}
use gateway_runtime.Session.Lifecycle.{magnitude}
use gateway_runtime.Middleware.{Request, Response, http_error, with_header, operational_path}

-- what becomes of a request: it runs without a place, it runs with one, or it is refused
pub data Arrival : Type 0 where
  free : Arrival
  placed : Arrival
  busy : Response → Arrival

abbrev pub server_busy : Response
server_busy = with_header "Retry-After" "1" (http_error 503 "server busy")

-- the part of the handler before `next.ServeHTTP`; `taken` is the number of places in use
unfoldable pub arrive : ℤ → Request → ℕ → Arrival × ℕ
unfolding operational_path
arrive limit r taken =
    if not (is_positive limit)
    then (free, taken)
    else if operational_path r.path
    then (free, taken)
    else if ltb taken (magnitude limit)
    then (placed, suc taken)
    else (busy server_busy, taken)

-- the deferred part
unfoldable pub leave : Arrival → ℕ → ℕ
leave placed taken = taken - 1
leave other taken = taken

-- The requests whose handler has not returned, and the places in use.
pub record Server : Type 0 where
  pub running : List Arrival
  pub taken : ℕ

abbrev arrived : Server → Arrival × ℕ → Server
arrived s (a, taken) = record { running = a ∷ s.running; taken = taken }

-- A request arrives, or any request that is there returns: with a place, without one, or refused.
pub data Step (limit : ℤ) : Server → Server → Type 0 where
  come : (r : Request) (s : Server) → Step limit s (arrived s (arrive limit r s.taken))
  return :
      (s : Server) (before after : List Arrival) (a : Arrival)
      → s.running ≡ before ++ a ∷ after
      → Step limit s (record { running = before ++ after; taken = leave a s.taken })

pub data Reached (limit : ℤ) : Server → Type 0 where
  idle : Reached limit (record { running = []; taken = 0 })
  next : {s t : Server} → Reached limit s → Step limit s t → Reached limit t

-- how many of the requests run with a place
abbrev pub one_if_placed : Arrival → ℕ
one_if_placed placed = 1
one_if_placed free = 0
one_if_placed (busy resp) = 0

abbrev pub count_placed : List Arrival → ℕ
count_placed [] = 0
count_placed (a ∷ running) = one_if_placed a + count_placed running

abbrev pub IsCounted : ℤ → Server → Type 0
IsCounted limit s = (s.taken ≡ count_placed s.running) × (s.taken ≤ magnitude limit)

count_placed-append :
    (xs ys : List Arrival) → count_placed (xs ++ ys) ≡ count_placed xs + count_placed ys
count_placed-append [] ys = omega arith
count_placed-append (x ∷ xs) ys = omega (arith, count_placed-append xs ys)

come-IsCounted :
    (limit : ℤ) (r : Request) (s : Server)
    → IsCounted limit s
    → IsCounted limit (arrived s (arrive limit r s.taken))
unfolding arrive
come-IsCounted limit r s h = elim (Bool-cases (not (is_positive limit))) [
  | inl off ↦ rw off (omega (arith, h), omega (arith, h))
  | inr on ↦ elim (Bool-cases (operational_path r.path)) [
    | inl probe ↦ rw (on, probe) (omega (arith, h), omega (arith, h))
    | inr plain ↦ elim (Bool-cases (ltb s.taken (magnitude limit))) [
      | inl room ↦
          rw (on, plain, room)
            (omega (arith, h, ltb→lt _ _ room), omega (arith, h, ltb→lt _ _ room))
      | inr full ↦ rw (on, plain, full) (omega (arith, h), omega (arith, h))
    ]
  ]
]

-- a return gives back exactly what the request took
leave-count_placed :
    (before after : List Arrival) (a : Arrival) (taken : ℕ)
    → taken ≡ count_placed (before ++ a ∷ after)
    → (leave a taken ≡ count_placed (before ++ after)) × (leave a taken ≤ taken)
unfolding leave
leave-count_placed before after placed taken e =
    let whole = count_placed-append before (placed ∷ after) in
    let left = count_placed-append before after in (omega (arith, e, whole, left), omega arith)
leave-count_placed before after free taken e =
    let whole = count_placed-append before (free ∷ after) in
    let left = count_placed-append before after in (omega (arith, e, whole, left), omega arith)
leave-count_placed before after (busy resp) taken e =
    let whole = count_placed-append before (busy resp ∷ after) in
    let left = count_placed-append before after in (omega (arith, e, whole, left), omega arith)

Step-IsCounted : {limit : ℤ} {s t : Server} → Step limit s t → IsCounted limit s → IsCounted limit t
Step-IsCounted {limit} (come r s) h = come-IsCounted limit r s h
Step-IsCounted {limit} (return s before after a e) (counted, bounded) =
    let (left, less) = leave-count_placed before after a s.taken (counted ∙ ap count_placed e) in
    (left, omega (arith, less, bounded))

Reached-IsCounted_rec : {limit : ℤ} {s : Server} → Reached limit s → IsCounted limit s
Reached-IsCounted_rec idle = (refl, omega arith)
Reached-IsCounted_rec (next r st) = Step-IsCounted st (Reached-IsCounted_rec r)

-- In every order in which requests arrive and return, those without a place and those refused included,
-- the places in use are as many as the requests that run with one, and no more than the limit (none
-- where the limit is not positive).
pub Reached-IsCounted : {limit : ℤ} {s : Server} → Reached limit s → IsCounted limit s
Reached-IsCounted r = Reached-IsCounted_rec r
