-- ===== src/EvmLog/RoundTrip.antt =====
-- The events that the program writes with `LOGn`, decoded by `_NeonLogDecoder` of
-- proxy/common_neon/utils/evm_log_decoder.py.
use proxy_model_py.Base.{
  ℕ, zero, suc, ◌≤◌, ◌≡◌, ◌≢◌, refl, sym, ap, ◌∙◌, ◌⊎◌, inl, inr, String, false, some, List, [],
  ◌∷◌, ◌++◌, map, length, take, get_elem?, All, ℤ, pos, arith, ok, ◌>>=◌, ltb, Result,
}
use Prim.Native.String.{◌∷◌ as ◌⊳◌}
use mathlib.Core.List.{append_assoc, append-nil}
use proxy_model_py.EvmLog.{
  Bytes, NeonLogTxEvent, NeonLogInfo, log, new_event, from_bytes, decode_neon_tx_event, log_event,
  first_or_empty,
}
use proxy_model_py.EvmLog.Decoding.{
  empty_info, decode_named, decode_line, decode_lines, decode_neon_log, add_event,
}
use proxy_model_py.EvmLog.Lines.{decode_mnemonic, add_word}
use proxy_model_py.EvmLog.Splitting.{
  log_line, IsPlain, IsWord, decode_mnemonic-log_line, log_line-not,
}

-- What the contract logs: the address, the topics and the data.
pub record Log : Type 0 where
  pub address : Bytes
  pub topic_list : List Bytes
  pub log_data : Bytes

abbrev pub log_name : ℕ → String
log_name zero = "LOG0"
log_name (suc zero) = "LOG1"
log_name (suc (suc zero)) = "LOG2"
log_name (suc (suc (suc zero))) = "LOG3"
log_name (suc (suc (suc (suc n)))) = "LOG4"

-- `line` is a line of the log `l`: its mnemonic, the address, the number of topics, the topics and the
-- data, each in base64. A log without data has an empty last word.
pub record IsLineOf (b64decode : String → Bytes) (utf8 : Bytes → String) (line : String) (l : Log)
    : Type 0 where
  pub name : String
  pub address_word : String
  pub count_word : String
  pub topic_words : List String
  pub last_word : String
  pub spelled : line ≡ log_line name (address_word ∷ count_word ∷ (topic_words ++ last_word ∷ []))
  pub words : All IsWord (name ∷ address_word ∷ count_word ∷ topic_words)
  pub plain : IsPlain last_word
  pub named : utf8 (b64decode name) ≡ log_name (length l.topic_list)
  pub at_address : b64decode address_word ≡ l.address
  pub counted : b64decode count_word ≡ length l.topic_list ∷ []
  pub with_topics : map b64decode topic_words ≡ l.topic_list
  pub with_data : b64decode last_word ≡ l.log_data

abbrev pub AreLinesOf : (String → Bytes) → (Bytes → String) → List String → List Log → Type 0
AreLinesOf b64decode utf8 [] [] = Unit
AreLinesOf b64decode utf8 [] (l ∷ logs) = ⊥
AreLinesOf b64decode utf8 (line ∷ lines) [] = ⊥
AreLinesOf b64decode utf8 (line ∷ lines) (l ∷ logs) =
    IsLineOf b64decode utf8 line l × AreLinesOf b64decode utf8 lines logs

unfoldable pub log_event_of : Log → NeonLogTxEvent
log_event_of l = new_event log false l.address l.topic_list l.log_data

-- At most four topics, and a topic or some data.
abbrev pub IsReadable : Log → Type 0
IsReadable l = (length l.topic_list ≤ 4) × ((l.topic_list ≢ []) ⊎ (l.log_data ≢ []))

take-append : {A : Type 0} (xs ys : List A) → take (length xs) (xs ++ ys) ≡ xs
take-append [] ys = refl
take-append (x ∷ xs) ys = ap (◌∷◌ x) (take-append xs ys)

get_elem?-append : {A : Type 0} (xs ys : List A) → get_elem? (xs ++ ys) (length xs) ≡ get_elem? ys 0
get_elem?-append [] ys = refl
get_elem?-append (x ∷ xs) ys = get_elem?-append xs ys

-- The bytes of the last word, which is no word if it is empty.
abbrev last_bytes : (String → Bytes) → String → List Bytes
last_bytes b64decode w = map b64decode (add_word w [])

first-last_bytes :
    (b64decode : String → Bytes) (w : String)
    → b64decode "" ≡ []
    → first_or_empty (get_elem? (last_bytes b64decode w) 0) ≡ b64decode w
first-last_bytes b64decode String.[] e = sym e
first-last_bytes b64decode (c ⊳ w) e = refl

length-append-ge : {A : Type 0} (xs ys : List A) → length xs ≤ length (xs ++ ys)
length-append-ge [] ys = omega arith
length-append-ge (x ∷ xs) ys = omega (arith, length-append-ge xs ys)

-- With the words of a log the decoder finds its parts.
log_event-parts :
    (address : Bytes) (topics words : List Bytes)
    → log_event address (length topics) (topics ++ words)
      ≡ ok (some (new_event log false address topics (first_or_empty (get_elem? words 0))))
log_event-parts address topics words =
    let enough : ltb (length (topics ++ words)) (length topics) ≡ false =
      ground (arith, length-append-ge topics words) in
    rw (enough, take-append topics words, get_elem?-append topics words) refl

some_word :
    (b64decode : String → Bytes) (topics : List Bytes) (w : String)
    → b64decode "" ≡ []
    → (topics ≢ []) ⊎ (b64decode w ≢ [])
    → topics ++ last_bytes b64decode w ≢ []
some_word b64decode [] String.[] e (inl filled) h = filled refl
some_word b64decode [] String.[] e (inr filled) h = filled e
some_word b64decode [] (c ⊳ w) e filled h = absurd cc
some_word b64decode (t ∷ topics) w e filled h = absurd cc

decode_neon_tx_event_lem :
    (n : ℕ) (address : Bytes) (words : List Bytes)
    → n ≤ 4
    → words ≢ []
    → decode_neon_tx_event (pos n) (address ∷ (n ∷ []) ∷ words) ≡ log_event address n words
unfolding decode_neon_tx_event from_bytes
decode_neon_tx_event_lem n address [] few filled = absurd (filled refl)
decode_neon_tx_event_lem n address (word ∷ rest) few filled = ground (arith, few)

-- How `int` reads the digits of the mnemonics of logs.
abbrev pub ReadsDigits : (String → Result ℤ) → Type 0
ReadsDigits int =
    (int "0" ≡ ok (pos 0))
    × (int "1" ≡ ok (pos 1))
    × (int "2" ≡ ok (pos 2))
    × (int "3" ≡ ok (pos 3))
    × (int "4" ≡ ok (pos 4))

module _ (b64decode : String → Bytes) (utf8 : Bytes → String) (int : String → Result ℤ)
    (none_read : b64decode "" ≡ []) (reads : ReadsDigits int) where
  decode_named-log_name :
      (info : NeonLogInfo) (n : ℕ) (words : List Bytes)
      → n ≤ 4
      → decode_named b64decode utf8 int info (log_name n) words
        ≡ (decode_neon_tx_event (pos n) words >>= λ event. ok (add_event info event))
  unfolding decode_named
  decode_named-log_name info zero words few = rw reads.0 refl
  decode_named-log_name info (suc zero) words few = rw reads.1 refl
  decode_named-log_name info (suc (suc zero)) words few = rw reads.2 refl
  decode_named-log_name info (suc (suc (suc zero))) words few = rw reads.3 refl
  decode_named-log_name info (suc (suc (suc (suc zero)))) words few = rw reads.4 refl
  decode_named-log_name info (suc (suc (suc (suc (suc n))))) words few = absurd (omega (arith, few))

  decode_line-log_line :
      (info : NeonLogInfo) (name : String) (ws : List String)
      → decode_line b64decode utf8 int info (log_line name ws) ≡ (
          let read = decode_mnemonic b64decode utf8 (log_line name ws) in
          decode_named b64decode utf8 int info read.0 read.1)
  unfolding decode_line
  decode_line-log_line info name ws =
      rw
        (
          log_line-not name ws "Log truncated" refl,
          log_line-not name ws "Program log: Storage Account is finalized" refl,
        )
        refl

  event_of_words :
      (l : Log) (w : String)
      → IsReadable l
      → b64decode w ≡ l.log_data
      → decode_neon_tx_event
          (pos (length l.topic_list))
          (l.address ∷ (length l.topic_list ∷ []) ∷ (l.topic_list ++ last_bytes b64decode w))
        ≡ ok (some (log_event_of l))
  unfolding log_event_of
  event_of_words l w (few, filled) e =
      let last = last_bytes b64decode w in
      decode_neon_tx_event_lem (length l.topic_list) l.address (l.topic_list ++ last) few
        (some_word b64decode l.topic_list w none_read (rw e filled))
      ∙ log_event-parts l.address l.topic_list last
      ∙ rw (first-last_bytes b64decode w none_read, e) refl

  decode_line-IsLineOf :
      (info : NeonLogInfo) (line : String) (l : Log)
      → IsReadable l
      → IsLineOf b64decode utf8 line l
      → decode_line b64decode utf8 int info line ≡ ok (add_event info (some (log_event_of l)))
  unfolding log_event_of
  decode_line-IsLineOf info line l (few, filled) h =
      let n = length l.topic_list in
      let last = last_bytes b64decode h.last_word in
      let ws = h.address_word ∷ h.count_word ∷ (h.topic_words ++ h.last_word ∷ []) in
      let found : decode_mnemonic b64decode utf8 (log_line h.name ws)
          ≡ (log_name n, l.address ∷ (n ∷ []) ∷ (l.topic_list ++ last)) =
        decode_mnemonic-log_line b64decode utf8 h.name h.address_word h.count_word h.topic_words
          h.last_word h.words h.plain
        ∙ rw (h.named, h.at_address, h.counted, h.with_topics) refl in
      rw (h.spelled, decode_line-log_line info h.name ws, found)
        (decode_named-log_name info n (l.address ∷ (n ∷ []) ∷ (l.topic_list ++ last)) few
          ∙ ap (λ r. r >>= λ event. ok (add_event info event))
              (event_of_words l h.last_word (few, filled) h.with_data))

  decode_lines-AreLinesOf :
      (info : NeonLogInfo) (lines : List String) (logs : List Log)
      → All IsReadable logs
      → AreLinesOf b64decode utf8 lines logs
      → decode_lines b64decode utf8 int info lines
        ≡ ok (record info { neon_tx_event_list = info.neon_tx_event_list ++ map log_event_of logs })
  unfolding decode_lines
  decode_lines-AreLinesOf info [] [] readable h =
      ap (λ list. ok (record info { neon_tx_event_list = list }))
        (sym (append-nil info.neon_tx_event_list))
  decode_lines-AreLinesOf info [] (l ∷ logs) readable h = absurd h
  decode_lines-AreLinesOf info (line ∷ lines) [] readable h = absurd h
  decode_lines-AreLinesOf info (line ∷ lines) (l ∷ logs) (readable, rest) (h, hs) =
      ap (λ r. r >>= λ info. decode_lines b64decode utf8 int info lines)
        (decode_line-IsLineOf info line l readable h)
      ∙ decode_lines-AreLinesOf (add_event info (some (log_event_of l))) lines logs rest hs
      ∙ ap (λ list. ok (record info { neon_tx_event_list = list }))
          (append_assoc info.neon_tx_event_list (log_event_of l ∷ []) (map log_event_of logs))

-- The lines of the logs of a transaction, each with at most four topics and with a topic or some data, are
-- decoded to their events, in order and with their addresses, topics and data, and to nothing else. This
-- holds where `b64decode` reads the empty text as no bytes, `int` the digits 0 to 4 as their numbers, and
-- each line is `Program data: ` and the words of its log, without spaces, which `b64decode` and `utf8` read
-- as its mnemonic, its address, the number of its topics, its topics and its data.
pub decode_neon_log-log_line :
    (b64decode : String → Bytes) (utf8 : Bytes → String) (int : String → Result ℤ)
    (log_list : List String) (logs : List Log)
    → b64decode "" ≡ []
    → ReadsDigits int
    → All IsReadable logs
    → AreLinesOf b64decode utf8 log_list logs
    → decode_neon_log b64decode utf8 int log_list
      ≡ ok (record empty_info { neon_tx_event_list = map log_event_of logs })
unfolding decode_neon_log
decode_neon_log-log_line b64decode utf8 int log_list logs none_read reads readable lines =
    decode_lines-AreLinesOf b64decode utf8 int none_read reads empty_info log_list logs readable
      lines
