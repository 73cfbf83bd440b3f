-- ===== src/Pack/Served.antt =====
-- A pack whose queues each serve a list, and what a call on one of them does.
use native.Mathlib.Decide.{ℕ_discrete}
use lockfree_mpmc_queue.Base.{
  ℕ, suc, ◌<◌, ◌^◌, ◌≡◌, refl, sym, ap, ◌∙◌, subst, List, [], ◌∷◌, Option, some, arith, ◌==◌,
  if◌then◌else◌, Bool, get?, set, get?-set_self, get?-set_ne, Bool-cases, inl, inr,
}
use lockfree_mpmc_queue.Base.Loop.{◌>>=◌}
use lockfree_mpmc_queue.Fifo
use lockfree_mpmc_queue.Fifo.{Fifo, head?, has_room}
use lockfree_mpmc_queue.Queue.{Config, Queue}
use lockfree_mpmc_queue.Queue.Serves.{Serves}
use lockfree_mpmc_queue.Queue.Pop.Result.{pop_reply}
use lockfree_mpmc_queue.Queue.Push.Result.{push_reply, push_index-Pushes}
use lockfree_mpmc_queue.Queue.Push.Overloads.{forget_index, push-push_index}
use lockfree_mpmc_queue.Queue.Calls.KeepN.{pop_value, pop-Pops}
use lockfree_mpmc_queue.Pack.{Pack, push_at, pop_at}

-- The lists with the one at `k` replaced.
abbrev pub replace : (ℕ → Fifo) → ℕ → Fifo → ℕ → Fifo
replace fs k f j = if j == k then f else fs j

pub record IsServed (p : Pack) (c : Config) (fs : ℕ → Fifo) : Type 0 where
  pub some_group : 0 < p.groups
  pub few_groups : p.groups < 2 ^ 32
  pub serves : (k : ℕ) → k < p.groups → (q : Queue) × (get? p.queues k ≡ some q) × Serves c q (fs k)

-- The pack with other queues in its array.
abbrev pub with_queues : Pack → List Queue → Pack
with_queues p qs = record p { queues = qs }

module _ {p : Pack} {c : Config} {fs : ℕ → Fifo} (v : IsServed p c fs) where
  pub IsServed-replace :
      (k : ℕ) (q q' : Queue) (f : Fifo)
      → get? p.queues k ≡ some q
      → Serves c q' f
      → IsServed (with_queues p (set p.queues k q')) c (replace fs k f)
  IsServed-replace k q q' f found s = record {
    some_group = v.some_group;
    few_groups = v.few_groups;
    serves = λ j in_range. elim (ℕ_discrete j k) [
      | yes e ↦ (
        q',
        rw e (get?-set_self p.queues k q' q found),
        subst (λ g. Serves c q' g) (ground arith) s,
      )
      | no ne ↦
          let (r, there, holds) = v.serves j in_range in
          (
            r,
            get?-set_ne p.queues k j q' (λ e. ne (sym e)) ∙ there,
            subst (λ g. Serves c r g) (ground arith) holds,
          )
    ];
  }

  pub IsServed-same : {gs : ℕ → Fifo} → ((j : ℕ) → fs j ≡ gs j) → IsServed p c gs
  IsServed-same same = record {
    some_group = v.some_group;
    few_groups = v.few_groups;
    serves = λ k in_range.
        let (q, there, holds) = v.serves k in_range in
        (q, there, subst (λ g. Serves c q g) (same k) holds);
  }

  -- `pop` on the queue at `k` takes the oldest element of its list.
  pub pop_at-IsServed :
      (fuel k : ℕ)
      → k < p.groups
      → (qs : List Queue) × (pop_at (suc (suc fuel)) p k ≡ some (head? (fs k), with_queues p qs))
        × IsServed (with_queues p qs) c (replace fs k (Fifo.pop (fs k)))
  unfolding pop_at
  pop_at-IsServed fuel k in_range =
      let (q, there, holds) = v.serves k in_range in
      let (q', popped, serves) = pop-Pops (fs k) fuel holds in
      (
        set p.queues k q',
        rw (there, pop_at)
            (rw popped
              (ap (λ h. some (h, with_queues p (set p.queues k q'))) (pop_value-head (fs k)))),
        IsServed-replace k q q' (Fifo.pop (fs k)) there serves,
      )
    where
      pop_value-head : (f : Fifo) → pop_value (pop_reply c f) ≡ head? f
      pop_value-head f = go f.read f.items
        where
          go :
              (h : ℕ) (xs : List ℕ)
              → pop_value (pop_reply c (record { read = h; items = xs }))
                ≡ head? (record { read = h; items = xs })
          go h [] = refl
          go h (x ∷ xs) = refl

  -- `push` on the queue at `k` appends to its list if there is room.
  pub push_at-IsServed :
      (fuel k d : ℕ)
      → k < p.groups
      → (qs : List Queue) × (push_at (suc (suc fuel)) p k d
          ≡ some (has_room c.size (fs k), with_queues p qs))
        × IsServed (with_queues p qs) c (replace fs k (Fifo.push c.size (fs k) d))
  unfolding push_at
  push_at-IsServed fuel k d in_range =
      let (q, there, holds) = v.serves k in_range in
      let (q', pushed, serves) = push_index-Pushes (fs k) fuel d holds in
      (
        set p.queues k q',
        rw (there, push_at)
            (rw (push-push_index (suc (suc fuel)) q d) (rw pushed (told (fs k) q'))),
        IsServed-replace k q q' (Fifo.push c.size (fs k) d) there serves,
      )
    where
      put_back : Option (Bool × Queue) → Option (Bool × Pack)
      put_back o = ◌>>=◌ {B = Bool × Pack} o (λ x. some (x.0, with_queues p (set p.queues k x.1)))

      told :
          (f : Fifo) (r : Queue)
          → put_back (forget_index (some (push_reply c f, r)))
            ≡ some (has_room c.size f, with_queues p (set p.queues k r))
      told f r = elim (Bool-cases (has_room c.size f)) [
        | inl room ↦ rw room refl
        | inr full ↦ rw full refl
      ]
