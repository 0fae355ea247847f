-- ===== src/Tests/Options.antt =====
-- The theorems on the order of options and on the OSCORE option at concrete inputs.
use uoscore_uedhoc.Base.{
  Ensures, [], arith, none, ok, refl, replicate, some, true, ℕ, ◌++◌, ◌∷◌, ◌≡◌,
}
use uoscore_uedhoc.Coap.{CoapOption, CompressedOscoreOption}
use uoscore_uedhoc.Memory.{Bytes, Pointer, null_array, read}
use uoscore_uedhoc.Protect.OptionValue.{get_oscore_opt_val_len, oscore_option_generate}
use uoscore_uedhoc.Protect.OptionValue.Generate.{oscore_option_generate-option_value}
use uoscore_uedhoc.Protect.OptionValue.Layout.{option_value}
use uoscore_uedhoc.Tests.Data.{
  context_bytes, one_piv, three_context, accept, array_of, get_packet, uri_path, id_bytes,
}
use uoscore_uedhoc.Unprotect.OptionValue.{oscore_option_parser}
use uoscore_uedhoc.Unprotect.OptionValue.RoundTrip.{
  fields_of, oscore_option_parser-oscore_option_generate,
}
use uoscore_uedhoc.Unprotect.Reorder.{exchange_sort, options_from_oscore_reorder}
use uoscore_uedhoc.Unprotect.Reorder.Lost.{
  AllNumbersIn, options_from_oscore_reorder_drops, options_from_oscore_reorder_lost,
}
use uoscore_uedhoc.Unprotect.Reorder.Sort.{IsSorted, exchange_sort_lem, occurrences}

exchange_sort_lem_example :
    IsSorted (exchange_sort 4 (11 ∷ 3 ∷ 17 ∷ 3 ∷ []))
    × ((a : ℕ)
        → occurrences a (exchange_sort 4 (11 ∷ 3 ∷ 17 ∷ 3 ∷ []))
          ≡ occurrences a (11 ∷ 3 ∷ 17 ∷ 3 ∷ []))
exchange_sort_lem_example = exchange_sort_lem (11 ∷ 3 ∷ 17 ∷ 3 ∷ [])

abbrev oscore_first : CoapOption
oscore_first = record { delta = 9; len = 0; value = none; option_number = 9 }

abbrev proxy_uri : CoapOption
proxy_uri = record { delta = 26; len = 1; value = some (97 ∷ []); option_number = 35 }

no_oscore_path : occurrences 9 (11 ∷ []) ≡ 0
unfolding occurrences
no_oscore_path = refl

no_oscore_proxy : occurrences 9 (35 ∷ []) ≡ 0
unfolding occurrences
no_oscore_proxy = refl

no_path_proxy : occurrences 11 (35 ∷ []) ≡ 0
unfolding occurrences
no_path_proxy = refl

options_from_oscore_reorder_lost_example :
    Ensures
      (AllNumbersIn (uri_path ∷ accept ∷ []))
      (options_from_oscore_reorder (oscore_first ∷ proxy_uri ∷ []) [] (uri_path ∷ []) (accept ∷ []))
options_from_oscore_reorder_lost_example =
    options_from_oscore_reorder_lost oscore_first (proxy_uri ∷ []) [] (uri_path ∷ []) (accept ∷ [])
      refl no_oscore_path

options_from_oscore_reorder_drops_example :
    options_from_oscore_reorder (oscore_first ∷ proxy_uri ∷ []) [] [] (uri_path ∷ []) ≡ ok []
options_from_oscore_reorder_drops_example =
    options_from_oscore_reorder_drops oscore_first proxy_uri uri_path [] [] [] refl no_oscore_proxy
      no_path_proxy

two_ids : read (array_of id_bytes).ptr 2 ≡ ok id_bytes
unfolding read
two_ids = refl

oscore_option_generate-option_value_example :
    (rest : Bytes) × (oscore_option_generate
        (array_of (20 ∷ []))
        (array_of id_bytes)
        (array_of context_bytes)
        (get_oscore_opt_val_len (array_of (20 ∷ [])) (array_of id_bytes) (array_of context_bytes))
        (replicate 22 0)
      ≡ ok (some (option_value (20 ∷ []) context_bytes id_bytes ++ rest)))
    × (get_oscore_opt_val_len (array_of (20 ∷ [])) (array_of id_bytes) (array_of context_bytes) ≡ 8)
oscore_option_generate-option_value_example =
    oscore_option_generate-option_value (array_of (20 ∷ [])) (array_of id_bytes)
      (array_of context_bytes) (20 ∷ []) id_bytes context_bytes (replicate 22 0) one_piv two_ids
      three_context (omega arith) (omega arith) (omega arith) (omega arith) refl

abbrev unset_option : CompressedOscoreOption
unset_option = record {
  h = 9;
  k = 9;
  n = 9;
  piv = null_array;
  kid_context = null_array;
  kid = null_array;
}

oscore_option_parser-oscore_option_generate_example :
    (value : Pointer) × (out' : CompressedOscoreOption) × (oscore_option_generate
        (array_of (20 ∷ []))
        (array_of id_bytes)
        (array_of context_bytes)
        (get_oscore_opt_val_len (array_of (20 ∷ [])) (array_of id_bytes) (array_of context_bytes))
        (replicate 22 0)
      ≡ ok value)
    × (oscore_option_parser
          (record get_packet {
            options =
                record {
                  delta = 9;
                  len =
                      get_oscore_opt_val_len
                        (array_of (20 ∷ []))
                        (array_of id_bytes)
                        (array_of context_bytes);
                  value = value;
                  option_number = 9;
                }
                ∷ [];
          })
          unset_option
        ≡ ok (out', true))
    × (fields_of out' ≡ record {
      k = 1;
      n = 1;
      piv = ok (20 ∷ []);
      kid_context = ok context_bytes;
      kid = ok id_bytes;
    })
oscore_option_parser-oscore_option_generate_example =
    oscore_option_parser-oscore_option_generate (array_of (20 ∷ [])) (array_of id_bytes)
      (array_of context_bytes) (20 ∷ []) id_bytes context_bytes (replicate 22 0) get_packet
      unset_option one_piv two_ids three_context (omega arith) (omega arith) (omega arith)
      (omega arith) refl
