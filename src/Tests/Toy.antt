-- ===== src/Tests/Toy.antt =====
-- A host to run EDHOC on: an encoder and a decoder for the few items that the messages have, and stand-ins for the
-- cryptography that keep lengths and the law of the curve.
use uoscore_uedhoc.Base.{
  List, [], fault, if◌then◌else◌, leb, length, ok, replicate, some, take, true, ℕ, ◌%◌, ◌*◌, ◌++◌,
  ◌+◌, ◌-◌, ◌/◌, ◌==◌, ◌>>=◌, ◌^◌, ◌∷◌,
}
use uoscore_uedhoc.Edhoc.{EdhocInitiatorContext, EdhocResponderContext, EdhocResult, OtherPartyCred}
use uoscore_uedhoc.Edhoc.Exchange.{Run, Session}
use uoscore_uedhoc.Edhoc.Host.{
  CborValue, Event, Host, byte_string_value, integer_value, malformed, map_value, other_value,
  prefix, received, sent, text_string_value,
}
use uoscore_uedhoc.Edhoc.Initiator.{edhoc_initiator_run}
use uoscore_uedhoc.Edhoc.Initiator.Process.{InitiatorResult}
use uoscore_uedhoc.Edhoc.Messages.{Message, msg1_encode, msg1_parse}
use uoscore_uedhoc.Edhoc.Responder.{ResponderResult, edhoc_responder_run}
use uoscore_uedhoc.Edhoc.Responder.Process.{Accepted, Message2, accept_1, make_message_2}
use uoscore_uedhoc.Memory.{ByteArray, Bytes, null_array}
use uoscore_uedhoc.Platform.{
  CborItem, array, byte_string, close, int, negint, null, pairs, text_string, uint,
}

unfoldable pub item_bytes : CborItem → Bytes
item_bytes (array n) = 4 ∷ []
item_bytes (uint n) = (100 + 2 * n) ∷ []
item_bytes (int n) = (100 + 2 * n) ∷ []
item_bytes (negint n) = (101 + 2 * n) ∷ []
item_bytes (pairs n) = 5 ∷ []
item_bytes (byte_string bs) = 2 ∷ length bs ∷ bs
item_bytes (text_string bs) = 3 ∷ length bs ∷ bs
item_bytes null = 7 ∷ []
item_bytes close = []

unfoldable pub toy_encode : List CborItem → Bytes
unfolding item_bytes
toy_encode [] = []
toy_encode (i ∷ is) = item_bytes i ++ toy_encode is

unfoldable pub number : ℕ → CborValue
number b =
    if b % 2 == 0
    then integer_value ((b - 100) / 2) 1
    else integer_value (2 ^ 32 - 1 - (b - 101) / 2) 1

-- The second byte of a string is its length.
unfoldable pub string_value : ℕ → ℕ → Bytes → CborValue
string_value b n rest =
    if b == 2
    then byte_string_value (take n rest) (2 + n)
    else (if b == 3 then text_string_value (take n rest) (2 + n) else other_value)

unfoldable pub toy_parse : Bytes → CborValue
unfolding number string_value
toy_parse [] = malformed
toy_parse (b ∷ []) = if leb 100 b then number b else (if b == 5 then map_value 1 else malformed)
toy_parse (b ∷ n ∷ rest) =
    if leb 100 b then number b else (if b == 5 then map_value 1 else string_value b n rest)

-- A value of 32 bytes made from a length.
abbrev digest_of : ℕ → Bytes
digest_of n = replicate 32 (n % 256)

unfoldable pub toy : Host
unfolding toy_encode toy_parse
toy = record {
  cbor = record { encode = toy_encode; overflow = λ n is. replicate n 0 };
  parse = toy_parse;
  string_length = λ bs. some (length bs);
  has_int64 = λ bs. true;
  copy_string = λ bs n. take n bs;
  sha_256_digest = λ m. digest_of (length m);
  hmac_digest = λ k m. digest_of (length k + length m);
  ccm_generation_encryption = λ k nonce n aad input. some (input ++ replicate 8 (length aad % 256));
  ccm_decryption_verification = λ k nonce n aad input. some (take n input);
  edsign_sign = λ pk sk m. replicate 64 1;
  edsign_verify = λ sgn pk m. true;
  c25519_smult = λ p s. digest_of (length p + length s);
  compact_x25519_keygen = λ seed. (seed, seed);
  unset = λ l. [];
  rx = λ es. fault;
  tx = λ es msg. ok tt;
}

abbrev pub bytes_array : Bytes → ByteArray
bytes_array bs = record { len = length bs; ptr = some bs }

-- Keys, which are their own public keys, and identifiers.
abbrev key_32 : ℕ → Bytes
key_32 k = replicate 32 k

abbrev id_of : ℕ → Bytes
id_of k = toy_encode (pairs 1 ∷ int 4 ∷ byte_string (k ∷ []) ∷ close ∷ [])

abbrev pub toy_initiator : EdhocInitiatorContext
toy_initiator = record {
  method_type = 3;
  corr = 1;
  suites_i = bytes_array (0 ∷ []);
  c_i = bytes_array (7 ∷ []);
  ad_1 = null_array;
  ad_3 = null_array;
  id_cred_i = bytes_array (id_of 20);
  cred_i = bytes_array (1 ∷ 2 ∷ []);
  g_x = bytes_array (key_32 1);
  x = bytes_array (key_32 1);
  g_i = bytes_array (key_32 2);
  i = bytes_array (key_32 2);
  sk_i = null_array;
  pk_i = null_array;
}

abbrev pub toy_responder : EdhocResponderContext
toy_responder = record {
  suites_r = bytes_array (0 ∷ []);
  g_y = bytes_array (key_32 3);
  y = bytes_array (key_32 3);
  c_r = bytes_array (9 ∷ []);
  g_r = bytes_array (key_32 4);
  r = bytes_array (key_32 4);
  ad_2 = null_array;
  id_cred_r = bytes_array (id_of 21);
  cred_r = bytes_array (3 ∷ 4 ∷ []);
  sk_r = null_array;
  pk_r = null_array;
}

abbrev known : ℕ → Bytes → Bytes → OtherPartyCred
known k cred g = record {
  id_cred = bytes_array (id_of k);
  cred = bytes_array cred;
  pk = null_array;
  g = bytes_array g;
  ca = null_array;
  ca_pk = null_array;
}

abbrev pub toy_creds_r : List OtherPartyCred
toy_creds_r = known 21 (3 ∷ 4 ∷ []) (key_32 4) ∷ []

abbrev pub toy_creds_i : List OtherPartyCred
toy_creds_i = known 20 (1 ∷ 2 ∷ []) (key_32 2) ∷ []

abbrev pub no_events : Session
no_events = record { events = []; err_msg = replicate 64 0; err_msg_len = 0 }

abbrev message_1_of : EdhocResult Message → EdhocResult Bytes
message_1_of m = m >>= λ (e : Message). prefix e.msg_len e.msg

unfoldable pub toy_msg1 : EdhocResult Bytes
unfolding toy msg1_encode
toy_msg1 = message_1_of (msg1_encode toy toy_initiator (replicate 256 0))

unfoldable pub toy_accepted : EdhocResult Accepted
toy_accepted = toy_msg1 >>= λ (msg1 : Bytes). msg1_parse toy msg1 [] >>= accept_1 toy

unfoldable pub toy_message_2 : EdhocResult Message2
toy_message_2 =
    toy_msg1 >>= λ (msg1 : Bytes). toy_accepted >>= make_message_2 toy toy_responder msg1

-- The initiator's side of the network gives it message 2 of the responder.
unfoldable pub initiator_host : Host
initiator_host = record toy { rx = λ es. toy_message_2 >>= λ (m : Message2). ok m.msg2 }

unfoldable pub initiator_run : Run InitiatorResult
initiator_run =
    edhoc_initiator_run initiator_host toy_initiator toy_creds_r [] (replicate 32 0)
      (replicate 32 0) no_events

-- The last message that was sent.
last_sent : List Event → EdhocResult Bytes
last_sent [] = fault
last_sent (sent msg ∷ []) = ok msg
last_sent (received msg ∷ []) = fault
last_sent (e ∷ d ∷ es) = last_sent (d ∷ es)

-- The responder's side gives it message 1 first, and then message 3.
next_message : List Event → EdhocResult Bytes
unfolding last_sent
next_message [] = toy_msg1
next_message (e ∷ es) = last_sent initiator_run.session.events

unfoldable pub responder_host : Host
unfolding next_message
responder_host = record toy { rx = next_message }

unfoldable pub responder_run : Run ResponderResult
responder_run =
    edhoc_responder_run responder_host toy_responder toy_creds_i [] [] (replicate 32 0)
      (replicate 32 0) no_events
