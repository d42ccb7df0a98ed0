-- ===== src/Wire/MediaTypes.antt =====
-- The common media types of pkg/fmsg/fmsg.go. Go ranges over the map in no fixed order; here the
-- order is that of the ids. No two ids have the same name, so the order does not matter.
use fmsgd.Prelude.{ℕ, List, [], ◌∷◌, Option, none, some, ◌==◌, if◌then◌else◌, Bytes, bytes_eq}
use fmsgd.Text.{codes}

abbrev pub MediaTable : Type 0
MediaTable = List (ℕ × Bytes)

unfoldable pub common_media_types : MediaTable
common_media_types =
    (1, codes "application/epub+zip")
    ∷ (2, codes "application/gzip")
    ∷ (3, codes "application/json")
    ∷ (4, codes "application/msword")
    ∷ (5, codes "application/octet-stream")
    ∷ (6, codes "application/pdf")
    ∷ (7, codes "application/rtf")
    ∷ (8, codes "application/vnd.amazon.ebook")
    ∷ (9, codes "application/vnd.ms-excel")
    ∷ (10, codes "application/vnd.ms-powerpoint")
    ∷ (11, codes "application/vnd.oasis.opendocument.presentation")
    ∷ (12, codes "application/vnd.oasis.opendocument.spreadsheet")
    ∷ (13, codes "application/vnd.oasis.opendocument.text")
    ∷ (14, codes "application/vnd.openxmlformats-officedocument.presentationml.presentation")
    ∷ (15, codes "application/vnd.openxmlformats-officedocument.spreadsheetml.sheet")
    ∷ (16, codes "application/vnd.openxmlformats-officedocument.wordprocessingml.document")
    ∷ (17, codes "application/x-tar")
    ∷ (18, codes "application/xhtml+xml")
    ∷ (19, codes "application/xml")
    ∷ (20, codes "application/zip")
    ∷ (21, codes "audio/aac")
    ∷ (22, codes "audio/midi")
    ∷ (23, codes "audio/mpeg")
    ∷ (24, codes "audio/ogg")
    ∷ (25, codes "audio/opus")
    ∷ (26, codes "audio/vnd.wave")
    ∷ (27, codes "audio/webm")
    ∷ (28, codes "font/otf")
    ∷ (29, codes "font/ttf")
    ∷ (30, codes "font/woff")
    ∷ (31, codes "font/woff2")
    ∷ (32, codes "image/apng")
    ∷ (33, codes "image/avif")
    ∷ (34, codes "image/bmp")
    ∷ (35, codes "image/gif")
    ∷ (36, codes "image/heic")
    ∷ (37, codes "image/jpeg")
    ∷ (38, codes "image/png")
    ∷ (39, codes "image/svg+xml")
    ∷ (40, codes "image/tiff")
    ∷ (41, codes "image/webp")
    ∷ (42, codes "model/3mf")
    ∷ (43, codes "model/gltf-binary")
    ∷ (44, codes "model/obj")
    ∷ (45, codes "model/step")
    ∷ (46, codes "model/stl")
    ∷ (47, codes "model/vnd.usdz+zip")
    ∷ (48, codes "text/calendar")
    ∷ (49, codes "text/css")
    ∷ (50, codes "text/csv")
    ∷ (51, codes "text/html")
    ∷ (52, codes "text/javascript")
    ∷ (53, codes "text/markdown")
    ∷ (54, codes "text/plain;charset=US-ASCII")
    ∷ (55, codes "text/plain;charset=UTF-16")
    ∷ (56, codes "text/plain;charset=UTF-8")
    ∷ (57, codes "text/vcard")
    ∷ (58, codes "video/H264")
    ∷ (59, codes "video/H265")
    ∷ (60, codes "video/H266")
    ∷ (61, codes "video/ogg")
    ∷ (62, codes "video/VP8")
    ∷ (63, codes "video/VP9")
    ∷ (64, codes "video/webm")
    ∷ []

-- A map's entry at a key.
unfoldable pub name_of : ℕ → MediaTable → Option Bytes
name_of id [] = none
name_of id ((k, name) ∷ rest) = if k == id then some name else name_of id rest

-- The first entry with the wanted value.
unfoldable pub id_of : Bytes → MediaTable → Option ℕ
id_of name [] = none
id_of name ((k, n) ∷ rest) = if bytes_eq n name then some k else id_of name rest

unfoldable pub get_common_media_type : ℕ → Option Bytes
unfolding name_of common_media_types
get_common_media_type id = name_of id common_media_types

unfoldable pub get_common_media_type_id : Bytes → Option ℕ
unfolding id_of common_media_types
get_common_media_type_id name = id_of name common_media_types
