-- ===== src/Edhoc/Transcript.antt =====
-- The transcript hashes: modules/edhoc/src/th.c.
use uoscore_uedhoc.Base.{List, [], length, ok, ℕ, ◌%◌, ◌++◌, ◌+◌, ◌-◌, ◌>>=◌, ◌^◌, ◌∷◌}
use uoscore_uedhoc.Edhoc.{EdhocResult, HashAlg, th_input_default_size}
use uoscore_uedhoc.Edhoc.CryptoWrapper.{hash}
use uoscore_uedhoc.Edhoc.Host.{Host, bstr_identifier, encode_checked, memcpy_checked}
use uoscore_uedhoc.Memory.{Bytes}
use uoscore_uedhoc.Platform.{CborItem, byte_string}

-- C_I is left out where it is empty.
abbrev pub th2_items : Bytes → Bytes → Bytes → List CborItem
th2_items [] g_y c_r = byte_string g_y ∷ bstr_identifier c_r ∷ []
th2_items (c ∷ cs) g_y c_r = byte_string (c ∷ cs) ∷ byte_string g_y ∷ bstr_identifier c_r ∷ []

unfoldable pub th2_input_encode : Host → Bytes → Bytes → Bytes → Bytes → ℕ → EdhocResult Bytes
unfolding memcpy_checked
th2_input_encode h msg1 c_i g_y c_r th2_input_len = do
  front ← memcpy_checked th2_input_len msg1
  tail ← encode_checked h (th2_input_len - length msg1) (th2_items c_i g_y c_r)
  ok (front ++ tail)

unfoldable pub th3_input_encode : Host → Bytes → Bytes → Bytes → ℕ → EdhocResult Bytes
th3_input_encode h th2 ciphertext_2 data_3 th3_input_len =
    encode_checked h th3_input_len
      (byte_string th2 ∷ byte_string ciphertext_2 ∷ bstr_identifier data_3 ∷ [])

unfoldable pub th4_input_encode : Host → Bytes → Bytes → ℕ → EdhocResult Bytes
th4_input_encode h th3 ciphertext_3 th4_input_len =
    encode_checked h th4_input_len (byte_string th3 ∷ byte_string ciphertext_3 ∷ [])

unfoldable pub th2_calculate : Host → HashAlg → Bytes → Bytes → Bytes → Bytes → EdhocResult Bytes
th2_calculate h alg msg1 c_i g_y c_r = do
  input ← th2_input_encode h msg1 c_i g_y c_r th_input_default_size
  hash h alg input

unfoldable pub th3_calculate : Host → HashAlg → Bytes → Bytes → Bytes → EdhocResult Bytes
th3_calculate h alg th2 ciphertext_2 data_3 = do
  input ←
      th3_input_encode h th2 ciphertext_2 data_3
        ((length th2 + length ciphertext_2 + length data_3 + 6) % 2 ^ 16)
  hash h alg input

unfoldable pub th4_calculate : Host → HashAlg → Bytes → Bytes → EdhocResult Bytes
th4_calculate h alg th3 ciphertext_3 = do
  input ← th4_input_encode h th3 ciphertext_3 (length th3 + length ciphertext_3 + 4)
  hash h alg input
