-- ===== src/Mempool/StuckTxDict/Listing.antt =====
-- What `add_external_tx_list` of proxy/mempool/mempool_stuck_tx_dict.py makes of a list.
use proxy_model_py.Base.{
  ◌≡◌, ap, refl, ◌∙◌, String, Bool, Option, none, some, List, [], ◌∷◌, true, false, not, ◌==◌, ◌&&◌,
  ◌||◌, string_eq, nat_eq, if◌then◌else◌, Bool-cases, inl, inr, arith, ok,
}
use proxy_model_py.Dict
use proxy_model_py.Dict.{Dict}
use proxy_model_py.Mempool.StuckTxDict.{
  StuckTxInfo, StuckTxDict, sig, external_round, external_loop, add_external_tx_list, acquire_tx,
}
use proxy_model_py.Mempool.StuckTxDict.Lookup.{acquire_own, acquire_external}

-- The last transaction of a list with a signature, or what was there before.
abbrev pub last_of : List StuckTxInfo → String → Option StuckTxInfo → Option StuckTxInfo
last_of [] s before = before
last_of (t ∷ list) s before = last_of list s (if sig t == s then some t else before)

contains-put :
    (d : Dict String StuckTxInfo) (k s : String) (v : StuckTxInfo)
    → Dict.contains d k ≡ true
    → Dict.contains (Dict.put d k v) s ≡ Dict.contains d s
unfolding Dict.contains
contains-put d k s v h = rw (Dict.get-put d k s v) (elim (Bool-cases (k == s)) [
  | inl same ↦ rw (same, ← (string_eq.same_iff k s).0 same, h) refl
  | inr other ↦ rw other refl
])

module _ (completed : String → Bool) where
  -- Whether a transaction of the list is passed over.
  abbrev pub is_skipped : Dict String StuckTxInfo → Dict String StuckTxInfo → String → Bool
  is_skipped own processed s =
      not (Dict.contains own s) && (Dict.contains processed s || completed s)

  module _ (processed own ext : Dict String StuckTxInfo) (t : StuckTxInfo) where
    round_own :
        Dict.contains own (sig t) ≡ true
        → external_round completed processed t (own, ext)
          ≡ (Dict.put own (sig t) t, Dict.put ext (sig t) t)
    unfolding external_round
    round_own held = rw held refl

    round_past :
        Dict.contains own (sig t) ≡ false
        → (Dict.contains processed (sig t) || completed (sig t)) ≡ true
        → external_round completed processed t (own, ext) ≡ (own, ext)
    unfolding external_round
    round_past other past = rw other (ground arith)

    round_new :
        Dict.contains own (sig t) ≡ false
        → (Dict.contains processed (sig t) || completed (sig t)) ≡ false
        → external_round completed processed t (own, ext) ≡ (own, Dict.put ext (sig t) t)
    unfolding external_round
    round_new other new = rw other (ground arith)

  pub external_loop_lem :
      (processed : Dict String StuckTxInfo) (list : List StuckTxInfo)
      (own ext : Dict String StuckTxInfo) (s : String)
      → Dict.get (external_loop completed processed list (own, ext)).1 s
        ≡ (if is_skipped own processed s then Dict.get ext s else last_of list s (Dict.get ext s))
  unfolding external_loop
  external_loop_lem processed [] own ext s = ground arith
  external_loop_lem processed (t ∷ list) own ext s = elim (Bool-cases (Dict.contains own (sig t))) [
    | inl held ↦ ground (
      arith,
      ap (λ p. Dict.get (external_loop completed processed list p).1 s)
            (round_own processed own ext t held)
          ∙ external_loop_lem processed list (Dict.put own (sig t) t) (Dict.put ext (sig t) t) s,
      contains-put own (sig t) s t held,
      Dict.get-put ext (sig t) s t,
      string_eq.same_iff (sig t) s,
    )
    | inr other ↦ elim (Bool-cases (Dict.contains processed (sig t) || completed (sig t))) [
      | inl past ↦ ground (
        arith,
        ap (λ p. Dict.get (external_loop completed processed list p).1 s)
              (round_past processed own ext t other past)
            ∙ external_loop_lem processed list own ext s,
        string_eq.same_iff (sig t) s,
      )
      | inr new ↦ ground (
        arith,
        ap (λ p. Dict.get (external_loop completed processed list p).1 s)
              (round_new processed own ext t other new)
            ∙ external_loop_lem processed list own (Dict.put ext (sig t) t) s,
        Dict.get-put ext (sig t) s t,
        string_eq.same_iff (sig t) s,
      )
    ]
  ]

  pub own_loop_lem :
      (processed : Dict String StuckTxInfo) (list : List StuckTxInfo)
      (own ext : Dict String StuckTxInfo) (s : String)
      → Dict.get (external_loop completed processed list (own, ext)).0 s
        ≡ (if Dict.contains own s then last_of list s (Dict.get own s) else none)
  unfolding external_loop Dict.contains
  own_loop_lem processed [] own ext s = ground arith
  own_loop_lem processed (t ∷ list) own ext s = elim (Bool-cases (Dict.contains own (sig t))) [
    | inl held ↦ ground (
      arith,
      ap (λ p. Dict.get (external_loop completed processed list p).0 s)
            (round_own processed own ext t held)
          ∙ own_loop_lem processed list (Dict.put own (sig t) t) (Dict.put ext (sig t) t) s,
      Dict.get-put own (sig t) s t,
      string_eq.same_iff (sig t) s,
    )
    | inr other ↦ elim (Bool-cases (Dict.contains processed (sig t) || completed (sig t))) [
      | inl past ↦ ground (
        arith,
        ap (λ p. Dict.get (external_loop completed processed list p).0 s)
              (round_past processed own ext t other past)
            ∙ own_loop_lem processed list own ext s,
        string_eq.same_iff (sig t) s,
      )
      | inr new ↦ ground (
        arith,
        ap (λ p. Dict.get (external_loop completed processed list p).0 s)
              (round_new processed own ext t other new)
            ∙ own_loop_lem processed list own (Dict.put ext (sig t) t) s,
        string_eq.same_iff (sig t) s,
      )
    ]
  ]

  -- After `add_external_tx_list` an own transaction is the last one listed with its signature, or the
  -- old one when none is, and no other becomes an own one. The external transactions are exactly those
  -- listed: again the last with a signature, but for the signatures that are processed or completed
  -- and not own. The transactions in processing stay.
  pub add_external_tx_list_lem :
      (d : StuckTxDict) (list : List StuckTxInfo) (s : String)
      → (Dict.get (add_external_tx_list completed d list).own_tx_dict s ≡ (
          if Dict.contains d.own_tx_dict s
          then last_of list s (Dict.get d.own_tx_dict s)
          else none))
        × (Dict.get (add_external_tx_list completed d list).external_tx_dict s ≡ (
            if is_skipped d.own_tx_dict d.processed_tx_dict s then none else last_of list s none))
        × ((add_external_tx_list completed d list).processed_tx_dict ≡ d.processed_tx_dict)
  unfolding add_external_tx_list Dict.get
  add_external_tx_list_lem d list s = (
    own_loop_lem d.processed_tx_dict list d.own_tx_dict [] s,
    external_loop_lem d.processed_tx_dict list d.own_tx_dict [] s,
    refl,
  )

  last_of_any :
      (list : List StuckTxInfo) (s : String) (tx : StuckTxInfo) (before : Option StuckTxInfo)
      → last_of list s none ≡ some tx
      → last_of list s before ≡ some tx
  last_of_any [] s tx before e = cc
  last_of_any (t ∷ list) s tx before e = elim (Bool-cases (sig t == s)) [
    | inl same ↦ rw same (rw same at e)
    | inr other ↦ rw other (last_of_any list s tx before (rw other at e))
  ]

  -- An own transaction that is listed from outside as well can be acquired twice, one time after the
  -- other, without being ended in between.
  pub own_tx_acquired_twice :
      (d : StuckTxDict) (list : List StuckTxInfo) (tx : StuckTxInfo)
      → Dict.contains d.own_tx_dict (sig tx) ≡ true
      → last_of list (sig tx) none ≡ some tx
      → (e f : StuckTxDict) × (acquire_tx (add_external_tx_list completed d list) tx ≡ ok (e, tx))
        × (acquire_tx e tx ≡ ok (f, tx))
  own_tx_acquired_twice d list tx own listed =
      let r = add_external_tx_list_lem d list (sig tx) in
      let at =
        r.0 ∙ rw own (last_of_any list (sig tx) tx (Dict.get d.own_tx_dict (sig tx)) listed) in
      let there = r.1 ∙ rw own listed in
      (
        _,
        _,
        acquire_own (add_external_tx_list completed d list) tx tx at,
        acquire_external _ tx tx
            (Dict.get-remove_self (add_external_tx_list completed d list).own_tx_dict (sig tx))
            there,
      )
