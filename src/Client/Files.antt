-- ===== src/Client/Files.antt =====
-- /sendfile on the client: SendFileCommand::executeOnClient of
-- src/application/commands/impl/sendfile.cpp. The file is read while it is whole.
use my_messenger.Prelude.{ℕ, List, [], ◌∷◌, ◌++◌, none, some, length, nat_eq, if◌then◌else◌, ◌*◌}
use my_messenger.Prelude.Bytes.{Bytes, Bytes-eq, is_empty}
use my_messenger.Prelude.Dict.{lookup}
use my_messenger.Prelude.Result.{ok}
use my_messenger.Prelude.Exec.{lift, ◌>>=◌, ◌>>◌}
use my_messenger.Message.{Message, file_start, file_chunk, file_end, new_message, get_meta}
use my_messenger.Wire.{write_u64}
use my_messenger.Crypto.{OpenSsl}
use my_messenger.Encryption.{service_sign, get_dh_bytes, get_identity_bytes}
use my_messenger.Client.{Client, submit, encrypt_for, counter_of, make_counter, advance_counter}

abbrev pub chunk_size : ℕ
chunk_size = 16 * 1024

-- The reads of `file.read(buffer, CHUNK)`: `cur` is what is in the buffer.
unfoldable pub chunks_from : Bytes → Bytes → List Bytes
chunks_from cur [] = if is_empty cur then [] else cur ∷ []
chunks_from cur (b ∷ rest) =
    let more = chunks_from (cur ++ b ∷ []) rest in
    let next = chunks_from (b ∷ []) rest in
    if nat_eq (length cur) chunk_size then cur ∷ next else more

module _ (o : OpenSsl) where
  unfoldable pub send_chunk : Bytes → Bytes → Bytes → Client o (Unit {0})
  send_chunk recipient filename chunk c =
      (do
        let counter = counter_of recipient c.messages_counter
        make_counter o recipient
        cipher_bytes ← encrypt_for o c.my_username recipient chunk counter
        advance_counter o recipient
        identity ← lift (get_identity_bytes o c.encryption_service)
        signature ← lift (service_sign o c.encryption_service)
        submit o (
            new_message c.now cipher_bytes 6
              (recipient
                ∷ filename
                ∷ c.my_username
                ∷ get_dh_bytes o c.encryption_service
                ∷ identity
                ∷ signature
                ∷ [])
              file_chunk))
        c

  unfoldable pub send_chunks : Bytes → Bytes → List Bytes → Client o (Unit {0})
  send_chunks recipient filename [] c = (ok tt, c)
  send_chunks recipient filename (chunk ∷ chunks) c =
      let rest = send_chunks recipient filename chunks in
      (send_chunk recipient filename chunk >> rest) c

  unfoldable pub client_sendfile : Message → Client o (Unit {0})
  client_sendfile msg c =
      let filename = get_meta msg 2 in
      let recipient = get_meta msg 1 in
      elim (lookup filename c.disk) [
        | none ↦ (ok tt, c)
        | some content ↦
            (do
              identity ← lift (get_identity_bytes o c.encryption_service)
              signature ← lift (service_sign o c.encryption_service)
              submit o (
                  new_message c.now [] 6
                    (recipient
                      ∷ filename
                      ∷ write_u64 (length content)
                      ∷ get_dh_bytes o c.encryption_service
                      ∷ identity
                      ∷ signature
                      ∷ [])
                    file_start)
              send_chunks recipient filename (chunks_from [] content)
              submit o (new_message c.now [] 2 (recipient ∷ filename ∷ []) file_end))
              c
      ]
