-- ===== src/OptionClass/ClassI.antt =====
-- No option is of class I.
use uoscore_uedhoc.Base.{List, [], ok, refl, ℕ, ◌%◌, ◌+◌, ◌^◌, ◌∷◌, ◌≡◌}
use uoscore_uedhoc.Coap.{CoapOption}
use uoscore_uedhoc.Memory.{Buffer, start}
use uoscore_uedhoc.OptionClass.{
  class_i, class_to_condition, encode_options, encode_options_loop, encoded_option_len,
  encoded_option_len_loop, is_class_i,
}

encoded_option_len_loop_class_i :
    (os : List CoapOption) (len total : ℕ)
    → encoded_option_len_loop (class_to_condition class_i) os len total ≡ ok len
unfolding encoded_option_len_loop class_to_condition is_class_i
encoded_option_len_loop_class_i [] len total = refl
encoded_option_len_loop_class_i (o ∷ os) len total =
    encoded_option_len_loop_class_i os len ((total + o.delta) % 2 ^ 16)

encode_options_loop_class_i :
    (os : List CoapOption) (out_buf_len skipped : ℕ) (out : Buffer)
    → encode_options_loop (class_to_condition class_i) out_buf_len os skipped out ≡ ok out
unfolding encode_options_loop class_to_condition is_class_i
encode_options_loop_class_i [] out_buf_len skipped out = refl
encode_options_loop_class_i (o ∷ os) out_buf_len skipped out =
    encode_options_loop_class_i os out_buf_len ((skipped + o.delta) % 2 ^ 16) out

-- Over any options, the class I options take no bytes, and encoding them into an array of any size
-- succeeds and writes nothing.
pub class_i_empty :
    (options : List CoapOption) (size out_buf_len : ℕ)
    → (encoded_option_len options class_i ≡ ok 0)
      × (encode_options options class_i size out_buf_len ≡ ok [])
unfolding encoded_option_len encode_options
class_i_empty options size out_buf_len = (
  encoded_option_len_loop_class_i options 0 0,
  rw (encode_options_loop_class_i options out_buf_len 0 (start size)),
)
