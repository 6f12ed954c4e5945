-- ===== src/Message/Responses.antt =====
-- The namespace StaticResponses of include/models/message.hpp: replies kept as the bytes of whole
-- messages.
use my_messenger.Prelude.{[], ◌∷◌}
use my_messenger.Prelude.Bytes.{Bytes}

abbrev pub chat_not_found : Bytes
chat_not_found =
    0x00 ∷ 0x00 ∷ 0x00 ∷ 0x00 ∷ 0x00 ∷ 0x0e ∷ 0x43 ∷ 0x68 ∷ 0x61 ∷ 0x74 ∷ 0x20 ∷ 0x6e ∷ 0x6f ∷ 0x74
    ∷ 0x20 ∷ 0x66 ∷ 0x6f ∷ 0x75 ∷ 0x6e ∷ 0x64 ∷ []

abbrev pub user_not_found : Bytes
user_not_found =
    0x00 ∷ 0x00 ∷ 0x00 ∷ 0x00 ∷ 0x00 ∷ 0x16 ∷ 0x5b ∷ 0x45 ∷ 0x52 ∷ 0x52 ∷ 0x4f ∷ 0x52 ∷ 0x5d ∷ 0x20
    ∷ 0x55 ∷ 0x73 ∷ 0x65 ∷ 0x72 ∷ 0x20 ∷ 0x6e ∷ 0x6f ∷ 0x74 ∷ 0x20 ∷ 0x66 ∷ 0x6f ∷ 0x75 ∷ 0x6e
    ∷ 0x64 ∷ []

abbrev pub you_need_to_login : Bytes
you_need_to_login =
    0x00 ∷ 0x00 ∷ 0x00 ∷ 0x00 ∷ 0x00 ∷ 0x24 ∷ 0x5b ∷ 0x45 ∷ 0x72 ∷ 0x72 ∷ 0x6f ∷ 0x72 ∷ 0x5d ∷ 0x3a
    ∷ 0x20 ∷ 0x59 ∷ 0x6f ∷ 0x75 ∷ 0x20 ∷ 0x6d ∷ 0x75 ∷ 0x73 ∷ 0x74 ∷ 0x20 ∷ 0x61 ∷ 0x75 ∷ 0x74
    ∷ 0x68 ∷ 0x65 ∷ 0x6e ∷ 0x74 ∷ 0x69 ∷ 0x63 ∷ 0x61 ∷ 0x74 ∷ 0x65 ∷ 0x20 ∷ 0x66 ∷ 0x69 ∷ 0x72
    ∷ 0x73 ∷ 0x74 ∷ []

abbrev pub wrong_command_usage : Bytes
wrong_command_usage =
    0x00 ∷ 0x00 ∷ 0x00 ∷ 0x00 ∷ 0x00 ∷ 0x3c ∷ 0x5b ∷ 0x45 ∷ 0x72 ∷ 0x72 ∷ 0x6f ∷ 0x72 ∷ 0x5d ∷ 0x3a
    ∷ 0x20 ∷ 0x57 ∷ 0x72 ∷ 0x6f ∷ 0x6e ∷ 0x67 ∷ 0x20 ∷ 0x63 ∷ 0x6f ∷ 0x6d ∷ 0x6d ∷ 0x61 ∷ 0x6e
    ∷ 0x64 ∷ 0x20 ∷ 0x75 ∷ 0x73 ∷ 0x61 ∷ 0x67 ∷ 0x65 ∷ 0x2e ∷ 0x20 ∷ 0x50 ∷ 0x6c ∷ 0x65 ∷ 0x61
    ∷ 0x73 ∷ 0x65 ∷ 0x20 ∷ 0x75 ∷ 0x73 ∷ 0x65 ∷ 0x20 ∷ 0x2f ∷ 0x68 ∷ 0x65 ∷ 0x6c ∷ 0x70 ∷ 0x20
    ∷ 0x74 ∷ 0x6f ∷ 0x20 ∷ 0x67 ∷ 0x65 ∷ 0x74 ∷ 0x20 ∷ 0x61 ∷ 0x20 ∷ 0x68 ∷ 0x65 ∷ 0x6c ∷ 0x70 ∷ []

abbrev pub empty_chat_name : Bytes
empty_chat_name =
    0x00 ∷ 0x00 ∷ 0x00 ∷ 0x00 ∷ 0x00 ∷ 0x18 ∷ 0x5b ∷ 0x45 ∷ 0x72 ∷ 0x72 ∷ 0x6f ∷ 0x72 ∷ 0x5d ∷ 0x3a
    ∷ 0x20 ∷ 0x45 ∷ 0x6d ∷ 0x70 ∷ 0x74 ∷ 0x79 ∷ 0x20 ∷ 0x63 ∷ 0x68 ∷ 0x61 ∷ 0x74 ∷ 0x20 ∷ 0x6e
    ∷ 0x61 ∷ 0x6d ∷ 0x65 ∷ []

abbrev pub chat_already_exists : Bytes
chat_already_exists =
    0x00 ∷ 0x00 ∷ 0x00 ∷ 0x00 ∷ 0x00 ∷ 0x1f ∷ 0x5b ∷ 0x45 ∷ 0x72 ∷ 0x72 ∷ 0x6f ∷ 0x72 ∷ 0x5d ∷ 0x3a
    ∷ 0x20 ∷ 0x43 ∷ 0x68 ∷ 0x61 ∷ 0x74 ∷ 0x20 ∷ 0x69 ∷ 0x73 ∷ 0x20 ∷ 0x61 ∷ 0x6c ∷ 0x72 ∷ 0x65
    ∷ 0x61 ∷ 0x64 ∷ 0x79 ∷ 0x20 ∷ 0x65 ∷ 0x78 ∷ 0x69 ∷ 0x73 ∷ 0x74 ∷ 0x73 ∷ []

abbrev pub you_are_already_member : Bytes
you_are_already_member =
    0x00 ∷ 0x00 ∷ 0x00 ∷ 0x00 ∷ 0x00 ∷ 0x2c ∷ 0x5b ∷ 0x45 ∷ 0x72 ∷ 0x72 ∷ 0x6f ∷ 0x72 ∷ 0x5d ∷ 0x3a
    ∷ 0x20 ∷ 0x59 ∷ 0x6f ∷ 0x75 ∷ 0x20 ∷ 0x61 ∷ 0x72 ∷ 0x65 ∷ 0x20 ∷ 0x61 ∷ 0x6c ∷ 0x72 ∷ 0x65
    ∷ 0x61 ∷ 0x64 ∷ 0x79 ∷ 0x20 ∷ 0x6d ∷ 0x65 ∷ 0x6d ∷ 0x62 ∷ 0x65 ∷ 0x72 ∷ 0x20 ∷ 0x6f ∷ 0x66
    ∷ 0x20 ∷ 0x74 ∷ 0x68 ∷ 0x69 ∷ 0x73 ∷ 0x20 ∷ 0x63 ∷ 0x68 ∷ 0x61 ∷ 0x74 ∷ []

abbrev pub public_key_has_not_set : Bytes
public_key_has_not_set =
    0x00 ∷ 0x00 ∷ 0x00 ∷ 0x00 ∷ 0x00 ∷ 0x24 ∷ 0x5b ∷ 0x45 ∷ 0x72 ∷ 0x72 ∷ 0x6f ∷ 0x72 ∷ 0x5d ∷ 0x3a
    ∷ 0x20 ∷ 0x50 ∷ 0x75 ∷ 0x62 ∷ 0x6c ∷ 0x69 ∷ 0x63 ∷ 0x20 ∷ 0x6b ∷ 0x65 ∷ 0x79 ∷ 0x20 ∷ 0x68
    ∷ 0x61 ∷ 0x73 ∷ 0x20 ∷ 0x6e ∷ 0x6f ∷ 0x74 ∷ 0x20 ∷ 0x62 ∷ 0x65 ∷ 0x65 ∷ 0x6e ∷ 0x20 ∷ 0x73
    ∷ 0x65 ∷ 0x74 ∷ []

abbrev pub you_are_logged_in : Bytes
you_are_logged_in =
    0x00 ∷ 0x00 ∷ 0x00 ∷ 0x00 ∷ 0x00 ∷ 0x22 ∷ 0x5b ∷ 0x45 ∷ 0x72 ∷ 0x72 ∷ 0x6f ∷ 0x72 ∷ 0x5d ∷ 0x3a
    ∷ 0x20 ∷ 0x59 ∷ 0x6f ∷ 0x75 ∷ 0x20 ∷ 0x61 ∷ 0x72 ∷ 0x65 ∷ 0x20 ∷ 0x61 ∷ 0x6c ∷ 0x72 ∷ 0x65
    ∷ 0x61 ∷ 0x64 ∷ 0x79 ∷ 0x20 ∷ 0x6c ∷ 0x6f ∷ 0x67 ∷ 0x67 ∷ 0x65 ∷ 0x64 ∷ 0x20 ∷ 0x69 ∷ 0x6e ∷ []

abbrev pub you_are_not_member : Bytes
you_are_not_member =
    0x00 ∷ 0x00 ∷ 0x00 ∷ 0x00 ∷ 0x00 ∷ 0x28 ∷ 0x5b ∷ 0x45 ∷ 0x72 ∷ 0x72 ∷ 0x6f ∷ 0x72 ∷ 0x5d ∷ 0x3a
    ∷ 0x20 ∷ 0x59 ∷ 0x6f ∷ 0x75 ∷ 0x20 ∷ 0x61 ∷ 0x72 ∷ 0x65 ∷ 0x20 ∷ 0x6e ∷ 0x6f ∷ 0x74 ∷ 0x20
    ∷ 0x6d ∷ 0x65 ∷ 0x6d ∷ 0x62 ∷ 0x65 ∷ 0x72 ∷ 0x20 ∷ 0x6f ∷ 0x66 ∷ 0x20 ∷ 0x74 ∷ 0x68 ∷ 0x69
    ∷ 0x73 ∷ 0x20 ∷ 0x63 ∷ 0x68 ∷ 0x61 ∷ 0x74 ∷ []
