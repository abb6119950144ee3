-- ===== src/Tests/Json.antt =====
-- A codec for the columns of the manifest store: each character behind a quote, each text before a comma, and a
-- stop at the end.
use Prim.Native.Char.{Char, code}
use ottie.Prelude.{
  ◌≡◌, ◌≢◌, refl, ap, String, Bool, true, false, Option, none, some, List, [], ◌∷◌, ◌==◌,
  if◌then◌else◌,
}
use ottie.ExecManifest.Rows.{Codec}

abbrev quote : Char
quote = "'"

abbrev comma : Char
comma = ","

abbrev stop : Char
stop = "."

abbrev encode_text : String → String → String
encode_text String.[] rest = String.◌∷◌ comma rest
encode_text (String.◌∷◌ c s) rest = String.◌∷◌ quote (String.◌∷◌ c (encode_text s rest))

abbrev encode : List String → String
encode [] = String.◌∷◌ stop String.[]
encode (s ∷ ss) = encode_text s (encode ss)

abbrev begin_text : Option (List String) → Option (List String)
begin_text none = none
begin_text (some ss) = some ("" ∷ ss)

abbrev push : Char → Option (List String) → Option (List String)
push c none = none
push c (some []) = none
push c (some (s ∷ ss)) = some (String.◌∷◌ c s ∷ ss)

-- Reads on, a character after a quote.
abbrev decode_from : Bool → String → Option (List String)
decode_from quoted String.[] = none
decode_from true (String.◌∷◌ c s) = push c (decode_from false s)
decode_from false (String.◌∷◌ c s) =
    let plain = decode_from false s in
    let next = decode_from true s in
    if code c == b'.' then some [] else if code c == b',' then begin_text plain else next

decode-encode_text :
    (s rest : String) (ss : List String)
    → decode_from false rest ≡ some ss
    → decode_from false (encode_text s rest) ≡ some (s ∷ ss)
decode-encode_text String.[] rest ss h = ap begin_text h
decode-encode_text (String.◌∷◌ c s) rest ss h = ap (push c) (decode-encode_text s rest ss h)

pub decode-encode : (ss : List String) → decode_from false (encode ss) ≡ some ss
decode-encode [] = refl
decode-encode (s ∷ ss) = decode-encode_text s (encode ss) ss (decode-encode ss)

pub some_text : (ss : List String) → encode ss ≢ ""
some_text [] e = cc
some_text (String.[] ∷ ss) e = cc
some_text (String.◌∷◌ c s ∷ ss) e = cc

abbrev pub codec : Codec
codec = record {
  Versions = List String;
  no_versions = [];
  marshal_array = encode;
  marshal_map = encode;
  unmarshal_array = decode_from false;
  unmarshal_map = decode_from false;
  unmarshal-marshal_array = decode-encode;
  unmarshal-marshal_map = decode-encode;
  array_text = some_text;
  map_text = some_text;
}
