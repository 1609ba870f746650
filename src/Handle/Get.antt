-- ===== src/Handle/Get.antt =====
-- get() of csrc/methods_handle.c, beside Data_obj_from_ndn_buffer().
use py_ccn.Base.{◌≡◌, refl, ◌∙◌, true, Option, some, Bytes, ℕ}
use py_ccn.Base.Int.{ℤ}
use py_ccn.Base.Run.{Run, ok, ◌>>=◌}
use py_ccn.Wire.{NameLib}
use py_ccn.Ndnb.{BufDecoder}
use py_ccn.KeyLocator.{KeyLib}
use py_ccn.Data.{empty}
use py_ccn.Data.Cache.{unparsed, parsed, get_pco-Coherent}
use py_ccn.Data.Packet.{Parsed, with_pco, data_obj_from_ndn, data_obj_from_ndn_buffer}
use py_ccn.Handle.{Got, got, GetArgs, interest_argument, received, cmd_get}

module _ {C D K P H : Type 0} (parse : Bytes → Option (Parsed × C))
    (content_get_value : Bytes → Parsed → Option Bytes) (dec : BufDecoder D) (lib : NameLib)
    (keys : KeyLib K) (key_obj : K → Run P) (content_data : ℕ)
    (ndn_get : H → Bytes → Option Bytes → ℤ → Got C) (args : GetArgs H) (handle : H) (name : Bytes)
    (interest : Option Bytes) (is_ndn : args.is_ndn ≡ true) (handle_ok : args.handle ≡ ok handle)
    (is_name : args.is_name ≡ true) (name_ok : args.name ≡ ok name)
    (interest_ok : interest_argument args.interest ≡ ok interest) where
  called :
      cmd_get parse content_get_value dec lib keys key_obj content_data ndn_get true true args
      ≡ received parse content_get_value dec lib keys key_obj content_data
          (ndn_get handle name interest args.timeout)
  unfolding cmd_get
  called = rw (is_ndn) (rw (handle_ok) (rw (is_name) (rw (name_ok) (rw (interest_ok) refl))))

  -- With arguments of the right types and memory enough, where ndn_get() gives a packet with the form that ndn_parse_Data() gives it, get() decodes it as
  -- Data_obj_from_ndn_buffer() decodes its bytes.
  pub cmd_get-data_obj_from_ndn_buffer :
      (buf : Bytes) (pco : Parsed) (comps : C)
      → ndn_get handle name interest args.timeout ≡ got buf pco comps
      → parse buf ≡ some (pco, comps)
      → cmd_get parse content_get_value dec lib keys key_obj content_data ndn_get true true args ≡ (
          data_obj_from_ndn_buffer parse true true content_get_value dec lib keys key_obj
            content_data
            (some buf)
          >>= λ py_data. ok (some py_data))
  unfolding received data_obj_from_ndn data_obj_from_ndn_buffer with_pco
  cmd_get-data_obj_from_ndn_buffer buf pco comps e p =
      let direct = get_pco-Coherent parse buf empty unparsed in
      let kept = get_pco-Coherent parse buf _ (parsed pco comps p) in
      called ∙ rw (e) (rw (kept, direct) refl)
