-- ===== src/Protocol/RoundTrip.antt =====
-- walflux/protocol.py, `decode_message`, against the documented wire format: whole messages, and messages
-- that are cut short.
use walflux_postgres_increme.Prelude.{
  ℕ, ◌+◌, ◌≡◌, refl, ap, subst, List, [], ◌∷◌, append-nil, some, length, ok, err, protocol_error,
}
use walflux_postgres_increme.Protocol.Message.{
  Message, begin, commit, relation, insert, update, delete, truncate, origin, type_info,
}
use walflux_postgres_increme.Protocol.Reader.{Read}
use walflux_postgres_increme.Protocol.Decode.{
  decode_begin, decode_commit, decode_origin, decode_relation, decode_type, decode_insert,
  decode_update, decode_delete, decode_truncate, decode_message, decoder, run_decoder, message_of,
}
use walflux_postgres_increme.Protocol.Encode.{body_bytes, kind_byte, encode_message, IsMessage}
use walflux_postgres_increme.Protocol.Parts.{IsPart, tails}
use walflux_postgres_increme.Protocol.Rules.{place, Reads}
use walflux_postgres_increme.Protocol.Fields.{Reads-begin, Reads-commit, Reads-origin, Reads-type}
use walflux_postgres_increme.Protocol.Messages.{
  Reads-relation, Reads-insert, Reads-update, Reads-delete, Reads-truncate,
}

-- The decoder of a message, and what it reads.
abbrev HasDecoder : Message → Type 0
HasDecoder m = (d : Read Message) × (decoder (kind_byte m) ≡ some d) × Reads d (body_bytes m) m

message-HasDecoder : (m : Message) → IsMessage m → HasDecoder m
unfolding decoder
message-HasDecoder (begin l t x) h = (decode_begin, refl, Reads-begin l t x h)
message-HasDecoder (commit f c e t) h = (decode_commit, refl, Reads-commit f c e t h)
message-HasDecoder (relation r) h = (decode_relation, refl, Reads-relation r h)
message-HasDecoder (insert i n) h = (decode_insert, refl, Reads-insert i n h)
message-HasDecoder (update i o k n) h = (decode_update, refl, Reads-update i o k n h)
message-HasDecoder (delete i o k) h = (decode_delete, refl, Reads-delete i o k h)
message-HasDecoder (truncate o ids) h = (decode_truncate, refl, Reads-truncate o ids h)
message-HasDecoder (origin c n) h = (decode_origin, refl, Reads-origin c n h)
message-HasDecoder (type_info o s n) h = (decode_type, refl, Reads-type o s n h)

-- From the reader's first position, past the kind byte, to the end of the message.
decoded-at :
    (m : Message) (d : Read Message)
    → Reads d (body_bytes m) m
    → run_decoder (some d) (encode_message m) (kind_byte m) ≡ ok m
unfolding run_decoder
decoded-at m d h = ap message_of (
    subst
      (λ z.
        d (place (kind_byte m ∷ z) (kind_byte m) 1)
        ≡ ok (m, place (kind_byte m ∷ z) (kind_byte m) (1 + length (body_bytes m))))
      (append-nil (body_bytes m)) (h.reads (kind_byte m ∷ []) [] (kind_byte m)))

-- Every message that the format can carry is decoded from its documented encoding, whatever its type.
pub decode-encode_message : (m : Message) → IsMessage m → decode_message (encode_message m) ≡ ok m
unfolding decode_message
decode-encode_message m h =
    let (d, known, reads) = message-HasDecoder m h in rw known (decoded-at m d reads)

-- A message that the format can carry and that ends too early, at whatever byte, raises ProtocolError.
pub decode_message-IsPart :
    (m : Message) (part : List ℕ)
    → IsMessage m
    → IsPart part (encode_message m)
    → decode_message part ≡ err protocol_error
unfolding decode_message run_decoder
decode_message-IsPart m [] h cut = refl
decode_message-IsPart m (c ∷ part) h (b, rest, e) =
    let (d, known, reads) = message-HasDecoder m h in
    let (same, body) = tails (kind_byte m) c (body_bytes m) part b rest e in
    rw (same, known)
      (ap message_of (reads.cuts (kind_byte m ∷ []) part (kind_byte m) (b, rest, body)))
