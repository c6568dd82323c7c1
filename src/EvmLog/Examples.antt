-- ===== src/EvmLog/Examples.antt =====
-- Lines of a transfer and of an anonymous event, and a whole transaction, read by `_NeonLogDecoder` of
-- proxy/common_neon/utils/evm_log_decoder.py.
use proxy_model_py.EvmLog
use proxy_model_py.Base.{
  ℕ, ◌≡◌, refl, inl, inr, String, true, false, some, [], ◌∷◌, ◌==◌, string_eq, nat_eq, ℤ, pos,
  if◌then◌else◌, length, Result, ok, err, assertion_error, arith,
}
use proxy_model_py.EvmLog.{Bytes, NeonLogInfo}
use proxy_model_py.EvmLog.Lines.{is_space, decode_mnemonic}
use proxy_model_py.EvmLog.Splitting.{IsPlain}
use proxy_model_py.EvmLog.Decoding.{empty_info, decode_neon_log}
use proxy_model_py.EvmLog.RoundTrip.{Log, log_event_of, IsLineOf, decode_neon_log-log_line}

-- base64 of the words below.
abbrev b64decode : String → Bytes
b64decode word =
    if word == "TE9HMA=="
    then 76 ∷ 79 ∷ 71 ∷ 48 ∷ []
    else if word == "TE9HMg=="
    then 76 ∷ 79 ∷ 71 ∷ 50 ∷ []
    else if word == "R0FT"
    then 71 ∷ 65 ∷ 83 ∷ []
    else if word == "UkVUVVJO"
    then 82 ∷ 69 ∷ 84 ∷ 85 ∷ 82 ∷ 78 ∷ []
    else if word == "AA=="
    then 0 ∷ []
    else if word == "AQ=="
    then 1 ∷ []
    else if word == "Ag=="
    then 2 ∷ []
    else if word == "Aw=="
    then 3 ∷ []
    else if word == "BQ=="
    then 5 ∷ []
    else if word == "Bw=="
    then 7 ∷ []
    else if word == "EQ=="
    then 17 ∷ []
    else if word == "AQE="
    then 1 ∷ 1 ∷ []
    else []

abbrev last_byte : Bytes → ℕ
last_byte [] = 0
last_byte (b ∷ []) = b
last_byte (b ∷ c ∷ bytes) = last_byte (c ∷ bytes)

-- The mnemonics have three, six or four letters.
abbrev utf8 : Bytes → String
utf8 bytes =
    if length bytes == 3
    then "GAS"
    else if length bytes == 6
    then "RETURN"
    else if last_byte bytes == 48
    then "LOG0"
    else "LOG2"

abbrev int : String → Result ℤ
int digits =
    if digits == "0"
    then ok (pos 0)
    else if digits == "1"
    then ok (pos 1)
    else if digits == "2"
    then ok (pos 2)
    else if digits == "3"
    then ok (pos 3)
    else if digits == "4"
    then ok (pos 4)
    else err assertion_error

abbrev transfer : Log
transfer = record { address = 1 ∷ []; topic_list = (2 ∷ []) ∷ (3 ∷ []) ∷ []; log_data = [] }

abbrev anonymous : Log
anonymous = record { address = 1 ∷ []; topic_list = []; log_data = 7 ∷ [] }

abbrev transfer_line : String
transfer_line = "Program data: TE9HMg== AQ== Ag== Ag== Aw== "

abbrev anonymous_line : String
anonymous_line = "Program data: TE9HMA== AQ== AA== Bw=="

four_letters : IsPlain "AQ=="
unfolding is_space
four_letters = (refl, (refl, (refl, (refl, tt))))

eight_letters : IsPlain "TE9HMg=="
unfolding is_space
eight_letters = (refl, (refl, (refl, (refl, (refl, (refl, (refl, (refl, tt))))))))

transfer_line-IsLineOf : IsLineOf b64decode utf8 transfer_line transfer
unfolding is_space
transfer_line-IsLineOf = record {
  name = "TE9HMg==";
  address_word = "AQ==";
  count_word = "Ag==";
  topic_words = "Ag==" ∷ "Aw==" ∷ [];
  last_word = "";
  spelled = refl;
  words = (
    (eight_letters, λ e. cc),
    (
      (four_letters, λ e. cc),
      ((four_letters, λ e. cc), ((four_letters, λ e. cc), ((four_letters, λ e. cc), tt))),
    ),
  );
  plain = tt;
  named = refl;
  at_address = refl;
  counted = refl;
  with_topics = refl;
  with_data = refl;
}

anonymous_line-IsLineOf : IsLineOf b64decode utf8 anonymous_line anonymous
unfolding is_space
anonymous_line-IsLineOf = record {
  name = "TE9HMA==";
  address_word = "AQ==";
  count_word = "AA==";
  topic_words = [];
  last_word = "Bw==";
  spelled = refl;
  words = ((eight_letters, λ e. cc), ((four_letters, λ e. cc), ((four_letters, λ e. cc), tt)));
  plain = four_letters;
  named = refl;
  at_address = refl;
  counted = refl;
  with_topics = refl;
  with_data = refl;
}

decode_neon_log-log_line_example :
    decode_neon_log b64decode utf8 int (transfer_line ∷ anonymous_line ∷ [])
    ≡ ok (record empty_info {
      neon_tx_event_list = log_event_of transfer ∷ log_event_of anonymous ∷ [];
    })
decode_neon_log-log_line_example =
    decode_neon_log-log_line b64decode utf8 int (transfer_line ∷ anonymous_line ∷ [])
      (transfer ∷ anonymous ∷ []) refl (refl, refl, refl, refl, refl)
      ((ground arith, inl (λ h. cc)), ((ground arith, inr (λ h. cc)), tt))
      (transfer_line-IsLineOf, (anonymous_line-IsLineOf, tt))

-- The decoder finds no event in the line of a log without topics and data.
bare-lost :
    decode_neon_log b64decode utf8 int ("Program data: TE9HMA== AQ== AA== " ∷ []) ≡ ok empty_info
unfolding decode_neon_log EvmLog.decode_neon_tx_event decode_mnemonic is_space
bare-lost = refl

-- The gas, lines that are passed over, the outcome, and the end of the log.
returned :
    decode_neon_log b64decode utf8 int (
      "Program data: R0FT BQ== AQE=" ∷ "Program data: R0FT"
      ∷ "Program log: Program data: R0FT AQ== AQ==" ∷ "Program data: UkVUVVJO  EQ=="
      ∷ "Log truncated" ∷ [])
    ≡ ok (record empty_info {
      neon_tx_ix = some (record { gas_used = 5; total_gas_used = 257 });
      neon_tx_return = some (record { gas_used = 257; status = 1; is_canceled = false });
      is_truncated = true;
    })
unfolding decode_neon_log EvmLog.decode_neon_tx_gas EvmLog.decode_neon_tx_return decode_mnemonic
    is_space
returned = refl
