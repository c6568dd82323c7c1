-- ===== src/Mempool/SenderPool/Nonces.antt =====
-- The nonces that `MPSenderTxPool` of proxy/mempool/mempool_schedule.py reports.
use mathlib.Core.List.{reverse, reverse-cons}
use proxy_model_py.Base.{
  ℕ, suc, ◌+◌, ◌≤◌, ◌<◌, ◌≡◌, refl, Bool, true, false, List, [], ◌∷◌, ◌++◌, arith, some, ◌==◌,
  nat_eq, string_eq, if◌then◌else◌, inl, inr, Bool-cases, All, ◌⊎◌, ◌||◌,
}
use proxy_model_py.Mempool.TxRequest.{TxRequest}
use proxy_model_py.Mempool.SenderPool.{SenderPool, queued, processing, pending_nonce, pending_loop}

-- Some request of the list has the nonce.
unfoldable pub holds_nonce : ℕ → List TxRequest → Bool
holds_nonce n [] = false
holds_nonce n (tx ∷ q) = tx.nonce == n || holds_nonce n q

-- Nonces fall along the list, and no two are equal.
abbrev pub Falls : List TxRequest → Type 0
Falls [] = Unit
Falls (tx ∷ q) = All (λ (a : TxRequest). a.nonce < tx.nonce) q × Falls q

-- Nonces rise along the list from `n` on.
abbrev Rises : ℕ → List TxRequest → Type 0
Rises n [] = Unit
Rises n (tx ∷ q) = (n ≤ tx.nonce) × Rises (suc tx.nonce) q

Rises-mono : (m n : ℕ) (q : List TxRequest) → m ≤ n → Rises n q → Rises m q
Rises-mono m n [] h r = tt
Rises-mono m n (tx ∷ q) h r = (omega arith, r.1)

holds_nonce_below : (n m : ℕ) (q : List TxRequest) → Rises n q → m < n → holds_nonce m q ≡ false
unfolding holds_nonce
holds_nonce_below n m [] r h = refl
holds_nonce_below n m (tx ∷ q) r h =
    ground (arith, holds_nonce_below (suc tx.nonce) m q r.1 (omega arith))

-- From `c` up to the result every nonce is held, and the result is not.
abbrev FirstGap : ℕ → List TxRequest → ℕ → Type 0
FirstGap c q r =
    (c ≤ r) × ((n : ℕ) → c ≤ n → n < r → holds_nonce n q ≡ true) × (holds_nonce r q ≡ false)

pending_loop_step :
    (c : ℕ) (tx : TxRequest) (q : List TxRequest)
    → pending_loop c (tx ∷ q) ≡ (if tx.nonce == c then pending_loop (c + 1) q else c)
unfolding pending_loop
pending_loop_step c tx q = refl

FirstGap-step :
    (c r : ℕ) (tx : TxRequest) (q : List TxRequest)
    → (tx.nonce == c) ≡ true
    → FirstGap (c + 1) q r
    → FirstGap c (tx ∷ q) r
unfolding holds_nonce
FirstGap-step c r tx q hit (le, held, gap) =
    (omega arith, λ n h k. ground (arith, held n), ground (arith, le, gap))

pending_loop-FirstGap : (c : ℕ) (q : List TxRequest) → Rises c q → FirstGap c q (pending_loop c q)
pending_loop-FirstGap c [] r =
    unfold pending_loop holds_nonce in (omega arith, λ n h k. absurd (omega arith), refl)
pending_loop-FirstGap c (tx ∷ q) (le, r) =
    let ih =
      pending_loop-FirstGap (c + 1) q (Rises-mono (c + 1) (suc tx.nonce) q (omega arith) r) in
    elim (Bool-cases (tx.nonce == c)) [
      | inl hit ↦ rw (pending_loop_step c tx q, hit) (FirstGap-step c _ tx q hit ih)
      | inr miss ↦
          rw (pending_loop_step c tx q, miss)
            (
              omega arith,
              λ n h k. absurd (omega arith),
              unfold holds_nonce in ground (arith, holds_nonce_below (suc tx.nonce) c q r),
            )
    ]

Rises-append :
    (n : ℕ) (q : List TxRequest) (tx : TxRequest)
    → Rises n q
    → n ≤ tx.nonce
    → All (λ (a : TxRequest). a.nonce < tx.nonce) q
    → Rises n (q ++ tx ∷ [])
Rises-append n [] tx r h a = (h, tt)
Rises-append n (b ∷ q) tx r h a = (r.0, Rises-append (suc b.nonce) q tx r.1 a.0 a.1)

All-reverse : (P : TxRequest → Type 0) (q : List TxRequest) → All P q → All P (reverse q)
All-reverse P [] a = tt
All-reverse P (tx ∷ q) a = rw (reverse-cons tx q) (All-snoc (reverse q) (All-reverse P q a.1))
  where
    All-snoc : (l : List TxRequest) → All P l → All P (l ++ tx ∷ [])
    All-snoc [] h = (a.0, tt)
    All-snoc (b ∷ l) h = (h.0, All-snoc l h.1)

Rises-reverse :
    (n : ℕ) (q : List TxRequest)
    → Falls q
    → All (λ (a : TxRequest). n ≤ a.nonce) q
    → Rises n (reverse q)
Rises-reverse n [] f a = tt
Rises-reverse n (tx ∷ q) f a = rw (reverse-cons tx q) (
    Rises-append n (reverse q) tx (Rises-reverse n q f.1 a.1) a.0
      (All-reverse (λ (b : TxRequest). b.nonce < tx.nonce) q f.0))

holds_nonce-append :
    (n : ℕ) (l m : List TxRequest) → holds_nonce n (l ++ m) ≡ holds_nonce n l || holds_nonce n m
unfolding holds_nonce
holds_nonce-append n [] m = refl
holds_nonce-append n (a ∷ l) m = ground (arith, holds_nonce-append n l m)

holds_nonce-reverse : (n : ℕ) (q : List TxRequest) → holds_nonce n (reverse q) ≡ holds_nonce n q
unfolding holds_nonce
holds_nonce-reverse n [] = refl
holds_nonce-reverse n (a ∷ q) =
    rw (reverse-cons a q)
      (ground (arith, holds_nonce-append n (reverse q) (a ∷ []), holds_nonce-reverse n q))

-- A pool that is queued or processing, whose nonces fall along its queue and are none below
-- `state_tx_cnt`, reports as pending nonce the first from `state_tx_cnt` on that it does not hold.
pub pending_nonce_lem :
    (p : SenderPool)
    → (p.state ≡ queued) ⊎ (p.state ≡ processing)
    → Falls p.tx_nonce_queue
    → All (λ (a : TxRequest). p.state_tx_cnt ≤ a.nonce) p.tx_nonce_queue
    → (r : ℕ) × (pending_nonce p ≡ some r)
      × (p.state_tx_cnt ≤ r)
      × ((n : ℕ) → p.state_tx_cnt ≤ n → n < r → holds_nonce n p.tx_nonce_queue ≡ true)
      × (holds_nonce r p.tx_nonce_queue ≡ false)
unfolding pending_nonce
pending_nonce_lem p s f a =
    let r = pending_loop p.state_tx_cnt (reverse p.tx_nonce_queue) in
    let g =
      pending_loop-FirstGap p.state_tx_cnt (reverse p.tx_nonce_queue)
        (Rises-reverse p.state_tx_cnt p.tx_nonce_queue f a) in
    (
      r,
      ground arith,
      g.0,
      λ n h k. rw (← holds_nonce-reverse n p.tx_nonce_queue) (g.1 n h k),
      rw (← holds_nonce-reverse r p.tx_nonce_queue) g.2,
    )
