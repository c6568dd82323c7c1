-- ===== src/Mempool/StuckTxDict/Lookup.antt =====
-- How `MPStuckTxDict` of proxy/mempool/mempool_stuck_tx_dict.py hands out a transaction.
use proxy_model_py.Base.{
  ◌≡◌, refl, sym, ◌∙◌, ap, if◌then◌else◌, String, none, some, [], ◌∷◌, string_eq, nat_eq,
  Option-cases, inl, inr, arith, ok, All,
}
use proxy_model_py.Dict
use proxy_model_py.Dict.{Dict}
use proxy_model_py.Mempool.StuckTxDict.{
  StuckTxInfo, StuckTxDict, sig, peek_tx, acquire_tx, done_tx, first_value,
}

-- Each transaction stands under its own signature.
abbrev pub KeysMatch : Dict String StuckTxInfo → Type 0
KeysMatch d = All (λ e. sig e.1 ≡ e.0) d

head_is : (t tx : StuckTxInfo) → some t ≡ some tx → t ≡ tx
head_is t tx e = cc

pub first_found :
    (d : Dict String StuckTxInfo) (tx : StuckTxInfo)
    → KeysMatch d
    → first_value d ≡ some tx
    → Dict.get d (sig tx) ≡ some tx
unfolding Dict.get
first_found [] tx k e = cc
first_found ((j, t) ∷ d) tx k e =
    ground (arith, k.0, ap sig (head_is t tx e), head_is t tx e, string_eq.same_iff j (sig tx))

pub none_first :
    (d : Dict String StuckTxInfo) (s : String) → first_value d ≡ none → Dict.get d s ≡ none
unfolding Dict.get
none_first [] s e = refl
none_first ((j, t) ∷ d) s e = cc

pub acquire_own :
    (d : StuckTxDict) (tx found : StuckTxInfo)
    → Dict.get d.own_tx_dict (sig tx) ≡ some found
    → acquire_tx d tx
      ≡ ok (
        record d {
          own_tx_dict = Dict.remove d.own_tx_dict (sig tx);
          processed_tx_dict = Dict.put d.processed_tx_dict (sig tx) found;
        },
        found,
      )
unfolding acquire_tx Dict.remove Dict.put
acquire_own d tx found at = rw (at, acquire_tx) refl

pub acquire_external :
    (d : StuckTxDict) (tx found : StuckTxInfo)
    → Dict.get d.own_tx_dict (sig tx) ≡ none
    → Dict.get d.external_tx_dict (sig tx) ≡ some found
    → acquire_tx d tx
      ≡ ok (
        record d {
          external_tx_dict = Dict.remove d.external_tx_dict (sig tx);
          processed_tx_dict = Dict.put d.processed_tx_dict (sig tx) found;
        },
        found,
      )
unfolding acquire_tx Dict.remove Dict.put
acquire_external d tx found absent at = rw (absent, at, acquire_tx) refl

done_found :
    (d : StuckTxDict) (s : String) (tx : StuckTxInfo)
    → Dict.get d.processed_tx_dict s ≡ some tx
    → done_tx d s ≡ ok (record d { processed_tx_dict = Dict.remove d.processed_tx_dict s })
unfolding done_tx Dict.contains
done_found d s tx at = rw at refl

ended :
    (d : StuckTxDict) (s : String) (tx : StuckTxInfo)
    → Dict.get d.processed_tx_dict s ≡ some tx
    → (f : StuckTxDict) × (done_tx d s ≡ ok f) × (Dict.get f.processed_tx_dict s ≡ none)
ended d s tx at = (_, done_found d s tx at, Dict.get-remove_self d.processed_tx_dict s)

-- Where every transaction stands under its own signature in both dicts, the transaction that `peek_tx`
-- shows can be acquired and is then in processing. The own dict loses it; the external one loses it
-- when the own dict had none of this signature, and is unchanged otherwise. Then the transaction can be
-- ended.
pub acquire-peek_tx :
    (d : StuckTxDict) (tx : StuckTxInfo)
    → KeysMatch d.own_tx_dict
    → KeysMatch d.external_tx_dict
    → peek_tx d ≡ some tx
    → (e : StuckTxDict) × (acquire_tx d tx ≡ ok (e, tx))
      × (Dict.get e.processed_tx_dict (sig tx) ≡ some tx)
      × (Dict.get e.own_tx_dict (sig tx) ≡ none)
      × (e.own_tx_dict ≡ Dict.remove d.own_tx_dict (sig tx))
      × (e.external_tx_dict ≡ (
          if Dict.contains d.own_tx_dict (sig tx)
          then d.external_tx_dict
          else Dict.remove d.external_tx_dict (sig tx)))
      × ((f : StuckTxDict) × (done_tx e (sig tx) ≡ ok f)
          × (Dict.get f.processed_tx_dict (sig tx) ≡ none))
unfolding peek_tx Dict.contains
acquire-peek_tx d tx own ext e = elim (Option-cases (first_value d.own_tx_dict)) [
  | inl empty ↦
      let absent = none_first d.own_tx_dict (sig tx) empty in
      let at = first_found d.external_tx_dict tx ext (rw empty at e) in
      (
        _,
        acquire_external d tx tx absent at,
        Dict.get-put_self d.processed_tx_dict (sig tx) tx,
        absent,
        sym (Dict.remove_absent d.own_tx_dict (sig tx) absent),
        rw absent refl,
        ended _ (sig tx) tx (Dict.get-put_self d.processed_tx_dict (sig tx) tx),
      )
  | inr (t, first) ↦
      let at = first_found d.own_tx_dict tx own (first ∙ (rw first at e)) in
      (
        _,
        acquire_own d tx tx at,
        Dict.get-put_self d.processed_tx_dict (sig tx) tx,
        Dict.get-remove_self d.own_tx_dict (sig tx),
        refl,
        rw at refl,
        ended _ (sig tx) tx (Dict.get-put_self d.processed_tx_dict (sig tx) tx),
      )
]
