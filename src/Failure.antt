-- ===== src/Failure.antt =====
-- The exceptions of the program (`std::runtime_error`, `std::overflow_error`), one constructor for
-- each message, and `undefined` for a read outside an object, which C++ leaves undefined.
pub data Failure : Type 0 where
  -- src/models/message.cpp, compute_serialized_size
  malformed_count message_too_large : Failure
  -- src/models/message.cpp, Serializer::deserialize
  too_short metadata_length_missing metadata_out_of_bounds : Failure
  payload_length_missing payload_out_of_bounds unsupported_version : Failure
  flags_missing timestamp_missing : Failure
  sender_length_missing sender_out_of_bounds : Failure
  recipient_length_missing recipient_out_of_bounds : Failure
  sequence_missing envelope_flags_missing metadata_count_missing : Failure
  -- src/infrastructure/crypto
  sign_failed verify_failed no_public_key public_key_failed bad_public_key : Failure
  hkdf_failed iv_failed tag_failed : Failure
  ciphertext_too_short replay_detected authentication_failed : Failure
  -- src/transport/raw_socket.cpp
  bad_variant_access no_listening_socket wrong_ip bind_failed listen_failed setsockopt_failed :
      Failure
  keygen_failed private_key_failed bad_private_key cannot_open cannot_write : Failure
  -- src/application/encryption_service.cpp
  public_key_not_found mitm_detected : Failure
  -- no exception: a loop of the model ran out of fuel
  out_of_fuel handshake_failed bad_number : Failure
  undefined : Failure
