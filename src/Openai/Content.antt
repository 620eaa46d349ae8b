-- ===== src/Openai/Content.antt =====
-- internal/openai/translate_request.go: the contents of messages, images and arguments.
use kiroxy.Prelude.{
  suc, Bool, not, ◌==◌, if◌then◌else◌, List, [], ◌∷◌, ◌++◌, Option, none, some, take, drop,
}
use kiroxy.Prelude.Bytes.{Bytes, codes, is_empty}
use kiroxy.Strings.Index.{index}
use kiroxy.Strings.Prefix.{has_prefix}
use kiroxy.Strings.Suffix.{cut_suffix}
use kiroxy.Reqconv.{ImageSource}
use kiroxy.Openai.Chat.{
  ContentPart, text_part, image_part, unknown_part, ChatContent, content_string, content_parts,
  content_null, images_refused, part_type, arguments_not_json, not_a_data_uri, malformed_data_uri,
  not_base64, data_not_base64, Result, ok, invalid,
}

-- The loop of `contentAsText`, with the text so far.
unfoldable pub parts_as_text : Bytes → List ContentPart → Result Bytes
parts_as_text out [] = ok out
parts_as_text out (text_part t ∷ ps) =
    parts_as_text (if is_empty out then t else out ++ (10 ∷ t)) ps
parts_as_text out (image_part u ∷ ps) = invalid images_refused
parts_as_text out (unknown_part t ∷ ps) = invalid part_type

-- `contentAsText`
unfoldable pub content_as_text : ChatContent → Result Bytes
unfolding parts_as_text
content_as_text content_null = ok []
content_as_text (content_string t) = ok t
content_as_text (content_parts ps) = parts_as_text [] ps

-- The part of a string before the first semicolon: `strings.Split(s, ";")[0]`.
unfoldable pub before_semicolon : Bytes → Bytes
before_semicolon [] = []
before_semicolon (c ∷ s) = let rest = before_semicolon s in if c == 59 then [] else c ∷ rest

-- `strings.TrimSuffix`
unfoldable pub trim_suffix : Bytes → Bytes → Bytes
unfolding cut_suffix
trim_suffix s suffix = elim (cut_suffix suffix s) [ none ↦ s | some t ↦ t ]

-- The libraries: white space, base64 of either kind, and the JSON of a call's arguments, which is an
-- object or null and is written again as a block's input.
pub record Decoding : Type 0 where
  pub trim_space : Bytes → Bytes
  pub is_base64 : Bytes → Bool
  pub parse : Bytes → Option (Option Bytes)

module _ (d : Decoding) where
  -- The two sides of the comma of a data URI.
  unfoldable pub image_source : Bytes → Bytes → Result ImageSource
  unfolding before_semicolon trim_suffix
  image_source header encoded =
      let media = trim_suffix (before_semicolon header) (codes ";base64") in
      elim (index (codes ";base64") header) [
        | none ↦ invalid not_base64
        | some i ↦
            if d.is_base64 encoded
            then ok (record {
              media_type = if is_empty media then codes "image/png" else media;
              encoded = encoded;
            })
            else invalid data_not_base64
      ]

  -- `parseImageURL`
  unfoldable pub parse_image_url : Bytes → Result ImageSource
  unfolding image_source
  parse_image_url url =
      let rest = drop 5 url in
      if not (has_prefix (codes "data:") url)
      then invalid not_a_data_uri
      else elim (index (codes ",") rest) [
        | none ↦ invalid malformed_data_uri
        | some comma ↦ image_source (take comma rest) (drop (suc comma) rest)
      ]

  -- `parseArgumentsJSON`
  unfoldable pub parse_arguments_json : Bytes → Result Bytes
  parse_arguments_json args =
      let trimmed = d.trim_space args in
      if is_empty trimmed then ok (codes "{}") else elim (d.parse trimmed) [
        | none ↦ invalid arguments_not_json
        | some none ↦ ok (codes "{}")
        | some (some out) ↦ ok out
      ]
