-- ===== src/Tests/Wire.antt =====
-- Examples for walflux/common.py and walflux/protocol.py.
use walflux_postgres_increme.Prelude.{
  ◌≡◌, ◌↔◌, ◌≤◌, [], ◌∷◌, ◌++◌, Text, codes, length, some, none, ok, err, protocol_error, refl,
  take, drop, ℕ, List, arith,
}
use walflux_postgres_increme.Common.Lsn.{parse_lsn, format_lsn}
use walflux_postgres_increme.Common.Lsn.RoundTrip.{parse_lsn-format_lsn}
use walflux_postgres_increme.Prelude.Int.{pos}
use walflux_postgres_increme.Prelude.Utf8.{encode}
use walflux_postgres_increme.Common.Ident.{quote_ident, IsIdentLine, quote_ident_exact}
use walflux_postgres_increme.Protocol.Decode.{decode_message}
use walflux_postgres_increme.Protocol.Encode.{encode_message, IsMessage, be_bytes}
use walflux_postgres_increme.Protocol.Message.{Message, ColumnValue, update}
use walflux_postgres_increme.Protocol.RoundTrip.{decode-encode_message, decode_message-IsPart}
use walflux_postgres_increme.Protocol.Parts.{IsPart}

-- `quote_ident("orders\n")` is the quoted name with the newline in it.
quote_ident_exact_example :
    (quote_ident (codes "orders" ++ 10 ∷ []) ≡ ok (codes "\"orders" ++ 10 ∷ codes "\"")) ↔ (
      IsIdentLine (codes "orders" ++ 10 ∷ [])
      × (length (codes "orders" ++ 10 ∷ []) ≤ 63)
      × (◌≡◌ {A = Text}
          (codes "\"orders" ++ 10 ∷ codes "\"")
          (b'"' ∷ (codes "orders" ++ 10 ∷ []) ++ b'"' ∷ [])))
quote_ident_exact_example =
    quote_ident_exact (codes "orders" ++ 10 ∷ []) (codes "\"orders" ++ 10 ∷ codes "\"")

-- An update with an old row, a NULL and an unchanged-TOAST marker.
abbrev amended : Message
amended =
    update 16384 (some (ColumnValue.text (codes "north") ∷ ColumnValue.null ∷ [])) none
      (ColumnValue.unchanged_toast ∷ ColumnValue.text (codes "7") ∷ [])

amended-IsMessage : IsMessage amended
unfolding encode
amended-IsMessage = ground arith

decode-encode_message_example : decode_message (encode_message amended) ≡ ok amended
decode-encode_message_example = decode-encode_message amended amended-IsMessage

-- The first nine bytes of it.
abbrev cut_short : List ℕ
cut_short = take 9 (encode_message amended)

cut_short-IsPart : IsPart cut_short (encode_message amended)
unfolding encode be_bytes
cut_short-IsPart = (0, drop 10 (encode_message amended), refl)

decode_message-IsPart_example : decode_message cut_short ≡ err protocol_error
decode_message-IsPart_example =
    decode_message-IsPart amended cut_short amended-IsMessage cut_short-IsPart

parse_lsn-format_lsn_example : parse_lsn (format_lsn (pos 97500059720)) ≡ ok (pos 97500059720)
parse_lsn-format_lsn_example = parse_lsn-format_lsn (pos 97500059720)
