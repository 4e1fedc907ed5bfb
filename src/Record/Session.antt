-- ===== src/Record/Session.antt =====
-- Sequences of calls of a decoder (record.rs, `RecordDecoder`).
use s.Prelude.{List, Option, Result, [], err, none, ok, some, ℕ, ◌++◌, ◌∷◌, nat_eq, string_eq}
use s.Record.{ErrorCode, Parsers, Record, RecordDecoder}
use s.Record.Stream.{end_of_segment, finish, next_record, push}
use s.Record.Lossless.{wire}

pub data DecoderCall : Type 0 where
  push_call : List ℕ → DecoderCall
  next_call finish_call segment_call : DecoderCall

abbrev pub listed : Option Record → List Record
listed none = []
listed (some r) = r ∷ []

-- The bytes that the calls push, in their order.
abbrev pub input : List DecoderCall → List ℕ
input [] = []
input (push_call chunk ∷ cs) = chunk ++ input cs
input (_ ∷ cs) = input cs

-- The bytes of records.
abbrev pub wires : List Record → List ℕ
wires [] = []
wires (r ∷ rs) = wire r ++ wires rs

unfoldable pub done :
    Result ErrorCode Unit × RecordDecoder → Result ErrorCode (List Record × RecordDecoder)
done (ok _, d) = ok ([], d)
done (err e, d) = err e

unfoldable pub given :
    Result ErrorCode (Option Record) × RecordDecoder
    → Result ErrorCode (List Record × RecordDecoder)
given (ok o, d) = ok (listed o, d)
given (err e, d) = err e

module _ (parsers : Parsers) where
  unfoldable pub call : DecoderCall → RecordDecoder → Result ErrorCode (List Record × RecordDecoder)
  unfolding push next_record finish end_of_segment done given
  call (push_call chunk) d = done (push parsers chunk d)
  call next_call d = given (next_record parsers d)
  call finish_call d = done (finish parsers d)
  call segment_call d = done (end_of_segment parsers d)

  -- The calls in turn, up to the first error; with the records that they returned.
  unfoldable pub session :
      List DecoderCall → RecordDecoder → Result ErrorCode (List Record × RecordDecoder)
  unfolding call
  session [] d = ok ([], d)
  session (c ∷ cs) d = elim (call c d) [
    | err e ↦ err e
    | ok (rs, n) ↦ elim (session cs n) [ err e ↦ err e | ok (qs, m) ↦ ok (rs ++ qs, m) ]
  ]
