-- ===== src/Mempool/FreeAltQueue/Freeing.antt =====
-- Which tables proxy/mempool/mempool_periodic_task_free_alt_queue.py asks to be freed.
use proxy_model_py.Base.{
  ℕ, ◌-◌, ◌≤◌, ◌<◌, ◌≡◌, refl, ap, List, [], ◌∷◌, ◌++◌, ltb, All, arith, Bool-cases, inl, inr,
}
use proxy_model_py.Mempool.FreeAltQueue.{
  AltInfo, FreeAltQueue, Request, old_tables, submit_free_list_request, freeing_depth, unless_empty,
}

-- The first table, if there is one, is younger than the block given.
abbrev pub StartsYoung : ℕ → List AltInfo → Type 0
StartsYoung h [] = Unit
StartsYoung h (a ∷ list) = h < a.block_height

old_front :
    (h : ℕ) (queue : List AltInfo)
    → (rest : List AltInfo) × (queue ≡ old_tables h queue ++ rest)
      × All (λ a. a.block_height ≤ h) (old_tables h queue)
      × StartsYoung h rest
unfolding old_tables
old_front h [] = ([], refl, tt, tt)
old_front h (a ∷ queue) = elim (Bool-cases (ltb h a.block_height)) [
  | inl young ↦ rw young (a ∷ queue, refl, tt, ground (arith, young))
  | inr old ↦
      let r = old_front h queue in
      rw old (r.0, ap (λ l. a ∷ l) r.1, (ground (arith, old), r.2), r.3)
]

-- The tables asked to be freed are the front of the queue up to the first one that is younger than the
-- freeing depth: each of them is as old as the depth. When there is none, nothing is asked.
pub submit_free_list_request_lem :
    (q : FreeAltQueue) (queue : List AltInfo) (request : List AltInfo → Request)
    → (list rest : List AltInfo) × (queue ≡ list ++ rest)
      × All (λ a. a.block_height ≤ q.block_height - freeing_depth) list
      × StartsYoung (q.block_height - freeing_depth) rest
      × (submit_free_list_request q queue request ≡ unless_empty request list)
unfolding submit_free_list_request
submit_free_list_request_lem q queue request =
    let r = old_front (q.block_height - freeing_depth) queue in (_, r.0, r.1, r.2, r.3, refl)
