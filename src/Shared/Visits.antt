-- ===== src/Shared/Visits.antt =====
-- The counters of a header count the producers and consumers that are there.
use native.Mathlib.Nat.{mod-add-mod, mod-eq_of_lt, add-mul-mod_self_right}
use lockfree_mpmc_queue.Base.{
  ℕ, suc, ◌+◌, ◌-◌, ◌*◌, ◌^◌, ◌<◌, ◌≡◌, refl, ap, ◌∙◌, List, [], ◌∷◌, arith,
}
use lockfree_mpmc_queue.Base.Word.{cast}
use lockfree_mpmc_queue.Shared.{
  Header, Layout, new_header, Visit, producer_comes, producer_goes, consumer_comes, consumer_goes,
  visit, visits, producers_inc, producers_dec, consumers_inc, consumers_dec, get_producers_count,
}

abbrev pub producers_come : List Visit → ℕ
producers_come [] = 0
producers_come (producer_comes ∷ vs) = suc (producers_come vs)
producers_come (_ ∷ vs) = producers_come vs

abbrev pub producers_go : List Visit → ℕ
producers_go [] = 0
producers_go (producer_goes ∷ vs) = suc (producers_go vs)
producers_go (_ ∷ vs) = producers_go vs

visits-producers :
    (vs : List Visit) (h : Header) (n : ℕ)
    → h.producer_count ≡ cast 32 n
    → (visits h vs).producer_count
      ≡ cast 32 (n + producers_come vs + producers_go vs * (2 ^ 32 - 1))
unfolding visits visit producers_inc producers_dec consumers_inc consumers_dec
visits-producers [] h n e = e ∙ ap (λ n. cast 32 n) (omega arith)
visits-producers (producer_comes ∷ vs) h n e =
    visits-producers vs (producers_inc h) (n + 1)
      (ap (λ k. cast 32 (k + 1)) e ∙ mod-add-mod n (2 ^ 32) 1)
    ∙ ap (λ n. cast 32 n) (omega arith)
visits-producers (producer_goes ∷ vs) h n e =
    visits-producers vs (producers_dec h) (n + (2 ^ 32 - 1)) (
      ap (λ k. cast 32 (k + 2 ^ 32 - 1)) e
      ∙ ap (λ n. cast 32 n) (omega arith)
      ∙ mod-add-mod n (2 ^ 32) (2 ^ 32 - 1))
    ∙ ap (λ n. cast 32 n) (omega arith)
visits-producers (consumer_comes ∷ vs) h n e = visits-producers vs (consumers_inc h) n e
visits-producers (consumer_goes ∷ vs) h n e = visits-producers vs (consumers_dec h) n e

-- In a new file, after any comings and goings in any order that leave fewer than 2^31 producers,
-- `get_producers_count()` is the number of those that are there, and consumers do not change it.
pub visits-get_producers_count :
    (l : Layout) (vs : List Visit) (n : ℕ)
    → producers_come vs ≡ producers_go vs + n
    → n < 2 ^ 31
    → get_producers_count (visits (new_header l) vs) ≡ n
unfolding get_producers_count
visits-get_producers_count l vs n balance few =
    let e : (visits (new_header l) vs).producer_count ≡ n =
      visits-producers vs (new_header l) 0 refl
      ∙ ap (λ n. cast 32 n) (omega arith)
      ∙ add-mul-mod_self_right n (producers_go vs) (2 ^ 32)
      ∙ mod-eq_of_lt (omega arith) in
    rw e (ground arith)
