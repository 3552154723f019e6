-- ===== src/MemoryPool/ObjectPool/Callers.antt =====
-- `Construct`, `Destroy` and `Preallocate` are made of the steps of Histories, so that every
-- theorem on histories speaks of them.
use server_core.Common.{
  ℕ, ◌+◌, ◌≤◌, ◌<◌, ◌≡◌, ◌≢◌, ◌⊎◌, inl, inr, refl, subst, Bool, true, false, List, [], ◌∷◌, none,
  some, ◌>>=◌, ◌==◌, arith, Bool-cases, count,
}
use server_core.MemoryPool.Memory.{Ptr, null, Memory, erase, count-erase}
use server_core.MemoryPool.ObjectPool.{
  ObjectPool, max_thread_num, malloc, malloc_all, free_all, preallocate, Init, construct,
}
use server_core.MemoryPool.ObjectPool.Histories.{State, Answers, takes, gives, writes, Reach, later}
use server_core.MemoryPool.ObjectPool.Threads.{
  takes_one, no_memory, no_pool, given_back, no_pool_for, malloc_never_shared, free_returns_home,
}

-- Thread `t` has a pool, or there is room for one.
abbrev pub HasRoom : ObjectPool → (t : ℕ) → Type 0
HasRoom s t = s.thread_id_ t ≡ none → s.thread_id_counter ≢ max_thread_num

-- `::malloc` answers each of the calls that take one chunk after the other, never with null.
abbrev pub AnswersAll : State → (t : ℕ) → List Ptr → Type 0
AnswersAll s t [] = Unit {0}
AnswersAll s t (ptr ∷ ptrs) =
    Answers s t ptr
    × (0 < ptr)
    × ((c : Ptr) (objects : ObjectPool)
        → malloc s.objects t ptr ≡ some (c, objects)
        → AnswersAll (record { objects = objects; held = c ∷ s.held }) t ptrs)

module _ {requested_size : ℕ} (t : ℕ) where
  malloc_all-Reach :
      (s : State) (ptrs : List Ptr)
      → Reach requested_size s
      → HasRoom s.objects t
      → AnswersAll s t ptrs
      → (cs : List Ptr) × (s' : State) × (malloc_all s.objects t ptrs ≡ some (cs, s'.objects))
        × Reach requested_size s'
        × HasRoom s'.objects t
        × (count null cs ≡ 0)
        × ((a : Ptr) → count a s'.held ≡ count a cs + count a s.held)
  unfolding malloc_all
  malloc_all-Reach s [] r room answers = ([], s, refl, r, room, refl, λ a. omega arith)
  malloc_all-Reach s (ptr ∷ ptrs) r room (fresh, pos, next) =
      elim (malloc_never_shared requested_size s t ptr r fresh) [
        | no_memory z fault ↦ absurd (ground (arith, z, pos))
        | no_pool unset full fault ↦ absurd (room unset full)
        | takes_one c objects e nonnull new named ↦
            let s₁ : State = record { objects = objects; held = c ∷ s.held } in
            let (cs, s', e', r', room', nonnulls, counts) =
              malloc_all-Reach s₁ ptrs (later r (takes t ptr c objects fresh e))
                (λ unset. absurd (ground (arith, named, unset))) (next c objects e) in
            (
              c ∷ cs,
              s',
              rw (malloc_all, e, ◌>>=◌, e') refl,
              r',
              room',
              ground (arith, nonnull, nonnulls),
              λ a. ground (arith, counts a),
            )
      ]

  free_all-Reach :
      (s : State) (cs : List Ptr) (ret : Bool)
      → Reach requested_size s
      → HasRoom s.objects t
      → count null cs ≡ 0
      → ((a : Ptr) → count a cs ≤ count a s.held)
      → (s' : State) × (free_all s.objects t cs ret ≡ some (ret, s'.objects))
        × Reach requested_size s'
        × ((a : Ptr) → count a s'.held + count a cs ≡ count a s.held)
  unfolding free_all
  free_all-Reach s [] ret r room nonnull are_held = (s, refl, r, λ a. omega arith)
  free_all-Reach s (c ∷ cs) ret r room nonnull are_held =
      let k : 0 < count c s.held = ground (arith, are_held c) in
      let fewer = λ (a : Ptr). count-erase a c s.held k in
      let given : (c == null) ≡ false = ground (arith, nonnull) in
      elim (free_returns_home requested_size s t c r k) [
        | no_pool_for unset full fault ↦ absurd (room unset full)
        | given_back id objects e named kept at ↦
            let s₁ : State = record { objects = objects; held = erase c s.held } in
            let (s', e', r', counts) =
              free_all-Reach s₁ cs ret (later r (gives t c objects k e))
                (λ unset. absurd (ground (arith, named, unset))) (ground (arith, nonnull))
                (λ a. ground (arith, are_held a, fewer a)) in
            (s', rw (free_all, given, e, ◌>>=◌) e', r', λ a. ground (arith, counts a, fewer a))
      ]

-- In every state that the threads reach, for a thread that has a pool or can be given one, as long
-- as `::malloc` answers each call with a fresh block, `Preallocate` returns true and is a history
-- of the threads' steps, after which the same chunks are held as before.
pub preallocate_lem :
    (requested_size : ℕ) (s : State) (t : ℕ) (ptrs : List Ptr)
    → Reach requested_size s
    → HasRoom s.objects t
    → AnswersAll s t ptrs
    → (s' : State) × (preallocate s.objects t ptrs ≡ some (true, s'.objects))
      × Reach requested_size s'
      × ((a : Ptr) → count a s'.held ≡ count a s.held)
unfolding preallocate
preallocate_lem requested_size s t ptrs r room answers =
    let (cs, s₁, e, r₁, room₁, nonnull, more) = malloc_all-Reach t s ptrs r room answers in
    let (s₂, e', r₂, fewer) =
      free_all-Reach t s₁ cs true r₁ room₁ nonnull (λ a. omega (arith, more a)) in
    (s₂, rw (preallocate, e, ◌>>=◌) e', r₂, λ a. omega (arith, more a, fewer a))

-- What a call of `Construct` comes to; `requested_size` is that of the history.
pub data Constructed (requested_size : ℕ) (s : State) (t : ℕ) (ptr : Ptr) (init : Init)
    : Type 0 where
  constructed :
      (c : Ptr) (taken objects : ObjectPool)
      → malloc s.objects t ptr ≡ some (c, taken)
      → (init taken.mem c).0 ≡ true
      → construct s.objects t ptr init ≡ some (c, objects)
      → c ≢ null
      → Reach requested_size (record { objects = objects; held = c ∷ s.held })
      → Constructed requested_size s t ptr init
  thrown :
      (c : Ptr) (taken objects : ObjectPool)
      → malloc s.objects t ptr ≡ some (c, taken)
      → (init taken.mem c).0 ≡ false
      → construct s.objects t ptr init ≡ some (null, objects)
      → (objects.pools (taken.owner c)).storage.head_ ≡ c
      → Reach requested_size (record { objects = objects; held = s.held })
      → Constructed requested_size s t ptr init
  no_chunk :
      (ptr ≡ null) ⊎ (s.objects.thread_id_counter ≡ max_thread_num)
      → construct s.objects t ptr init ≡ none
      → Constructed requested_size s t ptr init

-- In every state that the threads reach, with fresh blocks from `::malloc` and a constructor that
-- writes only into its object, `Construct` is a history of the threads' steps: if the constructor
-- returns, the thread holds a new chunk; if it throws, the answer is null, the chunk is the head of
-- the pool that it was taken from, and what is held is as before; without a chunk, the call faults.
pub construct_cases :
    (requested_size : ℕ) (s : State) (t : ℕ) (ptr : Ptr) (init : Init)
    → Reach requested_size s
    → Answers s t ptr
    → ((mem : Memory) (c a : Ptr) → a ≢ c → (init mem c).1 a ≡ mem a)
    → Constructed requested_size s t ptr init
unfolding construct
construct_cases requested_size s t ptr init r fresh local =
    elim (malloc_never_shared requested_size s t ptr r fresh) [
      | no_memory z fault ↦ no_chunk (inl z) (rw (construct, fault, ◌>>=◌) refl)
      | no_pool unset full fault ↦ no_chunk (inr full) (rw (construct, fault, ◌>>=◌) refl)
      | takes_one c taken e nonnull new named ↦
          let mem = (init taken.mem c).1 in
          let written : State = record {
            objects = record taken { mem = mem };
            held = c ∷ s.held;
          } in
          let r₁ : Reach requested_size written = later (later r (takes t ptr c taken fresh e)) (
            writes mem taken.owner
              (λ a none_held. local taken.mem c a (λ z. ground (arith, none_held, z)))
              (λ a k. refl)) in
          elim (Bool-cases (init taken.mem c).0) [
            | inl ok ↦
                constructed c taken written.objects e ok (rw (construct, e, ◌>>=◌, ok) refl) nonnull
                  r₁
            | inr throws ↦ elim (free_returns_home requested_size written t c r₁ (ground arith)) [
              | no_pool_for unset full fault ↦ absurd (ground (arith, named, unset))
              | given_back id objects back at kept place ↦
                  let own : (taken.owner c == id) ≡ true =
                    ground (arith, kept (taken.owner c) named) in
                  let self : (c == c) ≡ true = ground arith in
                  thrown c taken objects e throws (rw (construct, e, ◌>>=◌, throws, back) refl)
                    (rw own at place)
                    (subst
                      (λ (cs : List Ptr).
                        Reach requested_size (record { objects = objects; held = cs }))
                      (rw self refl) (later r₁ (gives t c objects (ground arith) back)))
            ]
          ]
    ]
