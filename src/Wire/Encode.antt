-- ===== src/Wire/Encode.antt =====
-- `Header.Encode` (pkg/fmsg/fmsg.go): the wire form of a header.
use fmsgd.Prelude.{
  ℕ, List, [], ◌∷◌, ◌++◌, ◌==◌, if◌then◌else◌, length, Bytes, to_byte, sized, little,
}
use fmsgd.Wire.{
  Address, AttachmentHeader, Header, to_string, has, flag_has_pid, flag_has_add_to,
  flag_common_type, flag_deflate, attachment_common_type, attachment_deflate,
}
use fmsgd.Wire.MediaTypes.{get_common_media_type_id}
use mathlib.Core.Option

unfoldable pub encode_address : Address → Bytes
encode_address a = sized (to_string a)

unfoldable pub encode_addresses : List Address → Bytes
encode_addresses [] = []
encode_addresses (a ∷ as_) = encode_address a ++ encode_addresses as_

-- The id that is written: the field, or the id of the type's name if the field is 0.
unfoldable pub wire_type_id : ℕ → Bytes → ℕ
wire_type_id id name = if id == 0 then Option.get_or (get_common_media_type_id name) id else id

unfoldable pub encode_type : ℕ → ℕ → ℕ → Bytes → Bytes
encode_type flags mask id name = if has flags mask then wire_type_id id name ∷ [] else sized name

unfoldable pub encode_attachment : AttachmentHeader → Bytes
encode_attachment a =
    a.flags
    ∷ (encode_type a.flags attachment_common_type a.type_id a.media_type
        ++ (sized a.filename
            ++ (little 4 a.size
                ++ (if has a.flags attachment_deflate then little 4 a.expanded_size else []))))

unfoldable pub encode_attachments : List AttachmentHeader → Bytes
encode_attachments [] = []
encode_attachments (a ∷ rest) = encode_attachment a ++ encode_attachments rest

-- The sender that is written as add-to-from: `from` where the field is nil.
unfoldable pub adder : Header → Address
adder h = Option.get_or h.add_to_from h.from

unfoldable pub encode_add_to : Header → Bytes
encode_add_to h = encode_address (adder h) ++ to_byte (length h.add_to) ∷ encode_addresses h.add_to

unfoldable pub encode : Header → Bytes
encode h =
    h.version
    ∷ h.flags
    ∷ ((if has h.flags flag_has_pid then h.pid else [])
        ++ (encode_address h.from
            ++ to_byte (length h.to)
              ∷ (encode_addresses h.to
                  ++ ((if has h.flags flag_has_add_to then encode_add_to h else [])
                      ++ (little 8 h.timestamp
                          ++ ((if has h.flags flag_has_pid then [] else sized h.topic)
                              ++ (encode_type h.flags flag_common_type h.type_id h.media_type
                                  ++ (little 4 h.size
                                      ++ ((if has h.flags flag_deflate
                                            then little 4 h.expanded_size
                                            else [])
                                          ++ to_byte (length h.attachments)
                                            ∷ encode_attachments h.attachments)))))))))
