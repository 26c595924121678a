-- ===== src/Cache/Envelope.antt =====
-- `encode` and `decode` of backend/src/cache/cache.service.ts. JSON and gzip are Node's and parameters.
use dabdub.Prelude.{
  ℕ, ◌*◌, ◌==◌, leb, Bool, true, false, Option, none, some, String, if◌then◌else◌, ◌≡◌, ap, ◌∙◌,
}

-- Any text may stand in the field of an envelope that was read.
pub data Encoding : Type 0 where
  json gzip_base64 unknown : Encoding

pub record CacheEnvelope : Type 0 where
  pub v : ℕ
  pub encoding : Encoding
  pub payload : String

-- `JSON.stringify` and `JSON.parse`, the number of bytes, gzip with base64, all of which are none where they
-- throw.
pub record Codec (A : Type 0) : Type 0 where
  pub stringify : A → String
  pub parse : String → Option A
  pub byte_length : String → ℕ
  pub gzip : String → String
  pub gunzip : String → Option String
  pub stringify_envelope : CacheEnvelope → String
  pub parse_envelope : String → Option CacheEnvelope

pub record CodecLaws {A : Type 0} (codec : Codec A) : Type 0 where
  pub parse_stringify : (a : A) → codec.parse (codec.stringify a) ≡ some a
  pub gunzip_gzip : (s : String) → codec.gunzip (codec.gzip s) ≡ some s
  pub parse_envelope_stringify :
      (encoding : Encoding) (payload : String)
      → codec.parse_envelope
          (codec.stringify_envelope (record { v = 1; encoding = encoding; payload = payload }))
        ≡ some (record { v = 1; encoding = encoding; payload = payload })
  pub parse_envelope_empty : codec.parse_envelope "" ≡ none

abbrev pub compress_threshold_bytes : ℕ
compress_threshold_bytes = 8 * 1024

-- `undefined` wherever a step before it is.
abbrev pub or_undefined : {B C : Type 0} → Option B → (B → Option C) → Option C
or_undefined none f = none
or_undefined (some b) f = f b

module _ {A : Type 0} (codec : Codec A) where
  abbrev pub envelope_of : (text : String) → CacheEnvelope
  envelope_of text =
      if leb compress_threshold_bytes (codec.byte_length text)
      then record { v = 1; encoding = Encoding.gzip_base64; payload = codec.gzip text }
      else record { v = 1; encoding = Encoding.json; payload = text }

  unfoldable pub encode : A → String
  encode value = codec.stringify_envelope (envelope_of (codec.stringify value))

  abbrev pub open_payload : Encoding → (payload : String) → Option A
  open_payload Encoding.json payload = codec.parse payload
  open_payload Encoding.gzip_base64 payload = or_undefined (codec.gunzip payload) codec.parse
  open_payload Encoding.unknown payload = none

  abbrev pub open_envelope : CacheEnvelope → Option A
  open_envelope e = if e.v == 1 then open_payload e.encoding e.payload else none

  unfoldable pub decode : (raw : String) → Option A
  decode raw = or_undefined (codec.parse_envelope raw) open_envelope

  -- What was encoded is decoded, whether or not it was long enough to be compressed.
  pub decode-encode : CodecLaws codec → (a : A) → decode (encode a) ≡ some a
  unfolding encode decode
  decode-encode laws a =
      either (leb compress_threshold_bytes (codec.byte_length (codec.stringify a)))
    where
      either :
          (long : Bool)
          → or_undefined
              (codec.parse_envelope (
                codec.stringify_envelope (
                  if long
                  then record {
                    v = 1;
                    encoding = Encoding.gzip_base64;
                    payload = codec.gzip (codec.stringify a);
                  }
                  else record { v = 1; encoding = Encoding.json; payload = codec.stringify a })))
              open_envelope
            ≡ some a
      either true =
          ap (λ o. or_undefined o open_envelope)
            (laws.parse_envelope_stringify Encoding.gzip_base64 (codec.gzip (codec.stringify a)))
          ∙ ap (λ o. or_undefined o codec.parse) (laws.gunzip_gzip (codec.stringify a))
          ∙ laws.parse_stringify a
      either false =
          ap (λ o. or_undefined o open_envelope)
            (laws.parse_envelope_stringify Encoding.json (codec.stringify a))
          ∙ laws.parse_stringify a
