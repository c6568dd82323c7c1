-- ===== src/EvmLog/Splitting.antt =====
-- Lines as the program `sol_log_data` writes them, read by `_decode_mnemonic` of
-- proxy/common_neon/utils/evm_log_decoder.py.
use Prim.Native.String.{◌∷◌ as ◌⊳◌}
use Prim.Native.Char.{Char, char, code}
use proxy_model_py.Base.{
  ◌≡◌, ◌≢◌, refl, ap, ◌∙◌, String, false, none, some, List, [], ◌∷◌, ◌++◌, map, All, ◌==◌, nat_eq,
  string_eq, arith, Bool-cases, inl, inr,
}
use proxy_model_py.EvmLog.{Bytes}
use proxy_model_py.EvmLog.Lines.{
  is_space, strip_prefix, data_tail, filled, match_data, add_word, split_first, split,
  decode_mnemonic,
}

abbrev pub put : String → String → String
put String.[] s = s
put (c ⊳ w) s = c ⊳ put w s

-- The words, each after a space.
abbrev pub after_word : List String → String
after_word [] = ""
after_word (w ∷ ws) = char 32 tt ⊳ put w (after_word ws)

-- The words of the data, joined by spaces, behind the prefix.
abbrev pub log_line : String → List String → String
log_line w ws = put "Program data: " (put w (after_word ws))

-- Without spaces.
abbrev pub IsPlain : String → Type 0
IsPlain String.[] = Unit
IsPlain (c ⊳ s) = (is_space c ≡ false) × IsPlain s

abbrev pub IsWord : String → Type 0
IsWord w = IsPlain w × (w ≢ "")

-- Without line ends.
abbrev IsLine : String → Type 0
IsLine String.[] = Unit
IsLine (c ⊳ s) = ((code c == 10) ≡ false) × IsLine s

IsPlain-IsLine : (s : String) → IsPlain s → IsLine s
unfolding is_space
IsPlain-IsLine String.[] h = tt
IsPlain-IsLine (c ⊳ s) h = (not_end c h.0, IsPlain-IsLine s h.1)
  where
    not_end : (c : Char) → is_space c ≡ false → (code c == 10) ≡ false
    not_end c h = ground arith

put-IsLine : (w s : String) → IsLine w → IsLine s → IsLine (put w s)
put-IsLine String.[] s a b = b
put-IsLine (c ⊳ w) s a b = (a.0, put-IsLine w s a.1 b)

after_word-IsLine : (ws : List String) → All IsPlain ws → IsLine (after_word ws)
after_word-IsLine [] h = tt
after_word-IsLine (w ∷ ws) h =
    (refl, put-IsLine w (after_word ws) (IsPlain-IsLine w h.0) (after_word-IsLine ws h.1))

strip_prefix-put : (p s : String) → strip_prefix p (put p s) ≡ some s
strip_prefix-put String.[] s = refl
strip_prefix-put (c ⊳ p) s = ground (arith, strip_prefix-put p s, nat_eq.same_iff (code c) (code c))

data_tail-IsLine : (s : String) → IsLine s → data_tail s ≡ some s
data_tail-IsLine String.[] h = refl
data_tail-IsLine (c ⊳ s) h = rw (h.0, data_tail-IsLine s h.1) refl

put-nil : (w : String) → put w "" ≡ w
put-nil String.[] = refl
put-nil (c ⊳ w) = ap (λ s. c ⊳ s) (put-nil w)

split_first-put :
    (w s : String)
    → IsPlain w
    → split_first (put w s) ≡ (put w (split_first s).0, (split_first s).1)
split_first-put String.[] s h = refl
split_first-put (c ⊳ w) s h = rw (h.0, split_first-put w s h.1) refl

-- The words that are not empty.
abbrev drop_empty : List String → List String
drop_empty [] = []
drop_empty (w ∷ ws) = add_word w (drop_empty ws)

split_first-after_word :
    (ws : List String) → All IsPlain ws → split_first (after_word ws) ≡ ("", drop_empty ws)
unfolding is_space
split_first-after_word [] h = refl
split_first-after_word (w ∷ ws) h =
    rw (split_first-put w (after_word ws) h.0, split_first-after_word ws h.1, put-nil w) refl

log_line-tail :
    (w : String) (ws : List String)
    → IsWord w
    → All IsPlain ws
    → match_data (log_line w ws) ≡ some (put w (after_word ws))
log_line-tail w ws (plain, full) rest =
    let ends : IsLine (put w (after_word ws)) =
      put-IsLine w (after_word ws) (IsPlain-IsLine w plain) (after_word-IsLine ws rest) in
    rw
      (
        strip_prefix-put "Program data: " (put w (after_word ws)),
        data_tail-IsLine (put w (after_word ws)) ends,
      )
      (filled-put w (after_word ws) full)
  where
    filled-put : (w s : String) → w ≢ "" → filled (put w s) ≡ some (put w s)
    filled-put String.[] s full = absurd (full refl)
    filled-put (c ⊳ w) s full = refl

add_word-IsWord : (w : String) (ws : List String) → w ≢ "" → add_word w ws ≡ w ∷ ws
add_word-IsWord String.[] ws full = absurd (full refl)
add_word-IsWord (c ⊳ w) ws full = refl

-- Words without spaces that are joined to a line are its words again, less the empty ones.
log_line-split :
    (w : String) (ws : List String)
    → IsWord w
    → All IsPlain ws
    → split (put w (after_word ws)) ≡ w ∷ drop_empty ws
log_line-split w ws (plain, full) rest =
    rw (split_first-put w (after_word ws) plain, split_first-after_word ws rest, put-nil w)
      (add_word-IsWord w (drop_empty ws) full)

drop_empty-topics :
    (topics : List String) (last : String)
    → All IsWord topics
    → drop_empty (topics ++ last ∷ []) ≡ topics ++ add_word last []
drop_empty-topics [] last h = refl
drop_empty-topics (t ∷ topics) last h =
    ap (add_word t) (drop_empty-topics topics last h.1)
    ∙ add_word-IsWord t (topics ++ add_word last []) h.0.1

topics-IsPlain :
    (topics : List String) (last : String)
    → All IsWord topics
    → IsPlain last
    → All IsPlain (topics ++ last ∷ [])
topics-IsPlain [] last h p = (p, tt)
topics-IsPlain (t ∷ topics) last h p = (h.0.0, topics-IsPlain topics last h.1 p)

map-append : {A B : Type 0} (f : A → B) (xs ys : List A) → map f (xs ++ ys) ≡ map f xs ++ map f ys
map-append f [] ys = refl
map-append f (x ∷ xs) ys = ap (◌∷◌ (f x)) (map-append f xs ys)

-- A line of words, of which the last may be empty, is read as their mnemonic and their bytes.
pub decode_mnemonic-log_line :
    (b64decode : String → Bytes) (utf8 : Bytes → String) (name address count : String)
    (topics : List String) (last : String)
    → All IsWord (name ∷ address ∷ count ∷ topics)
    → IsPlain last
    → decode_mnemonic b64decode utf8 (log_line name (address ∷ count ∷ (topics ++ last ∷ []))) ≡ (
      utf8 (b64decode name),
      b64decode address
          ∷ b64decode count
          ∷ (map b64decode topics ++ map b64decode (add_word last [])),
    )
unfolding decode_mnemonic
decode_mnemonic-log_line b64decode utf8 name address count topics last (n, (a, (c, ts))) d =
    let rest = topics ++ last ∷ [] in
    let plain = topics-IsPlain topics last ts d in
    rw
      (
        log_line-tail name (address ∷ count ∷ rest) n (a.0, (c.0, plain)),
        log_line-split name (address ∷ count ∷ rest) n (a.0, (c.0, plain)),
        drop_empty-topics topics last ts,
        add_word-IsWord count (topics ++ add_word last []) c.1,
        add_word-IsWord address (count ∷ (topics ++ add_word last [])) a.1,
        map-append b64decode topics (add_word last []),
      )
      refl

-- A text that does not begin with the prefix is no such line.
pub log_line-not :
    (w : String) (ws : List String) (message : String)
    → strip_prefix "Program data: " message ≡ none
    → (log_line w ws == message) ≡ false
log_line-not w ws message h = elim (Bool-cases (log_line w ws == message)) [
  | inl same ↦ absurd (
      let e : log_line w ws ≡ message = (string_eq.same_iff (log_line w ws) message).0 same in
      contra (log_line w ws) message e (strip_prefix-put "Program data: " (put w (after_word ws)))
        h)
  | inr other ↦ other
]
  where
    contra :
        (line message : String) {s : String}
        → line ≡ message
        → strip_prefix "Program data: " line ≡ some s
        → strip_prefix "Program data: " message ≡ none
        → ⊥
    contra line message e a b = ground (arith, ap (strip_prefix "Program data: ") e, a, b)
