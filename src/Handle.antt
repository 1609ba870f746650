-- ===== src/Handle.antt =====
-- csrc/methods_handle.c: the commands that make one call on a handle, get() and put(), and the name of
-- the default key. The functions of ndn on a handle are parameters; a capsule and a Python object are
-- made without failing.
pub mod Get
mod Runs
use py_ccn.Base.{ℕ, Bool, true, false, Option, none, some, List, Bytes, ◌==◌, if◌then◌else◌}
use mathlib.Core.Option.{get_or}
use py_ccn.Base.Int.{ℤ, pos}
use py_ccn.Base.Run.{
  Run, ok, raise, fault, ◌>>=◌, ◌>>◌, guard, or_raise, type_error, memory_error, io_error,
  ndn_error,
}
use py_ccn.Wire.{NameLib}
use py_ccn.Name.{name_obj_from_ndn}
use py_ccn.Ndnb.{BufDecoder}
use py_ccn.KeyLocator.{KeyLib}
use py_ccn.SignedInfo.{Argument, not_given, wrong_type, given}
use py_ccn.Data.{empty, set_pco, set_comps}
use py_ccn.Data.Packet.{Parsed, Capsule, PyData, data_obj_from_ndn}

-- The commands that make one call on a handle, which is none where the argument is no capsule of one.
-- Each of the calls may change the handle, which is no part of the model. A call that reports failure
-- is none.
unfoldable pub cmd_create : {H : Type 0} → Option H → Run H
cmd_create ndn_create = or_raise ndn_create ndn_error

-- connect(), which gives the number of a descriptor, and disconnect() and defer_verification(), which
-- give None.
unfoldable pub cmd_connect : {H : Type 0} → (ndn_connect : H → Option ℕ) → Option H → Run ℕ
cmd_connect ndn_connect py_ndn_handle = do
  handle ← or_raise py_ndn_handle type_error
  or_raise (ndn_connect handle) ndn_error

unfoldable pub cmd_disconnect :
    {H : Type 0} → (ndn_disconnect : H → Option ℕ) → Option H → Run (Unit {0})
cmd_disconnect ndn_disconnect py_ndn_handle = do
  handle ← or_raise py_ndn_handle type_error
  r ← or_raise (ndn_disconnect handle) ndn_error
  ok tt

unfoldable pub cmd_defer_verification :
    {H : Type 0}
    → (ndn_defer_verification : H → ℤ → Option ℕ) → Option H
    → (deferral : Option ℤ) → Run (Unit {0})
cmd_defer_verification ndn_defer_verification py_handle deferral = do
  handle ← or_raise py_handle type_error
  r ← or_raise (ndn_defer_verification handle (get_or deferral (pos 1))) ndn_error
  ok tt

-- get_connection_fd() and process_scheduled_operations(): the result of the call is given as it is.
unfoldable pub cmd_result : {H : Type 0} → (call : H → ℤ) → Option H → Run ℤ
cmd_result call py_handle = do handle ← or_raise py_handle type_error; ok (call handle)

unfoldable pub cmd_output_is_pending : {H : Type 0} → (pending : H → Bool) → Option H → Run Bool
cmd_output_is_pending pending py_handle = do
  handle ← or_raise py_handle type_error
  ok (pending handle)

unfoldable pub cmd_set_run_timeout :
    {H : Type 0} → (ndn_set_run_timeout : H → ℤ → ℤ) → Option H → (timeoutms : Option ℤ) → Run ℤ
cmd_set_run_timeout ndn_set_run_timeout py_handle timeoutms = do
  handle ← or_raise py_handle type_error
  ok (ndn_set_run_timeout handle (get_or timeoutms (pos 0)))

-- A third argument that is a number is written through a pointer that is not there: a fault.
unfoldable pub cmd_clear_interest_filter :
    {H : Type 0}
    → (set_interest_filter : H → Bytes → Option ℤ) → Option H
    → (name : Option Bytes) → (has_third : Bool) → Run ℤ
cmd_clear_interest_filter set_interest_filter py_ndn py_name true = fault
cmd_clear_interest_filter set_interest_filter py_ndn py_name false = do
  handle ← or_raise py_ndn type_error
  name ← or_raise py_name type_error
  or_raise (set_interest_filter handle name) io_error

-- What ndn_get() gives: a packet with its parsed form, or a failure with what ndn_geterror() says.
pub data Got (C : Type 0) : Type 0 where
  got : Bytes → Parsed → C → Got C
  get_failed : ℕ → Got C

-- The arguments of get(). An object comes as what its attribute ndn_data holds, which is a failed
-- attribute access or a failed assertion where that is no capsule of the right type.
pub record GetArgs (H : Type 0) : Type 0 where
  pub is_ndn : Bool
  pub handle : Run H
  pub is_name : Bool
  pub name : Run Bytes
  pub interest : Argument (Run Bytes)
  pub timeout : ℤ

unfoldable pub interest_argument : Argument (Run Bytes) → Run (Option Bytes)
interest_argument not_given = ok none
interest_argument wrong_type = raise type_error
interest_argument (given py_o) = do interest ← py_o; ok (some interest)

-- ndn_parse_Data() is `parse` and ndn_content_get_value() is `content_get_value`.
module _ {C D K P : Type 0} (parse : Bytes → Option (Parsed × C))
    (content_get_value : Bytes → Parsed → Option Bytes) (dec : BufDecoder D) (lib : NameLib)
    (keys : KeyLib K) (key_obj : K → Run P) (content_data : ℕ) where
  -- What get() makes of the result of ndn_get(). The context of the capsule holds the parsed form that
  -- ndn_get() has filled in; none is a timeout.
  unfoldable pub received : Got C → Run (Option (PyData P))
  unfolding set_pco set_comps
  received (get_failed err) = if err == 0 then ok none else raise io_error
  received (got data_buf pco comps) = do
    py_co ←
        (data_obj_from_ndn parse true true content_get_value dec lib keys key_obj content_data (
          some (record {
            content_object = data_buf;
            context = (set_comps (some comps) (set_pco (some pco) empty).0).0;
          }))).0
    ok (some py_co)

  -- _pyndn_cmd_get(); the two tests are those of calloc() and ndn_indexbuf_create().
  unfoldable pub cmd_get :
      {H : Type 0}
      → (ndn_get : H → Bytes → Option Bytes → ℤ → Got C) → (pco_allocated comps_allocated : Bool)
      → GetArgs H
      → Run (Option (PyData P))
  unfolding interest_argument received
  cmd_get ndn_get pco_allocated comps_allocated args = do
    guard args.is_ndn type_error
    handle ← args.handle
    guard args.is_name type_error
    name ← args.name
    interest ← interest_argument args.interest
    guard pco_allocated memory_error
    guard comps_allocated memory_error
    received (ndn_get handle name interest args.timeout)

-- _pyndn_cmd_put(); ndn_put() is none where it reports failure.
unfoldable pub cmd_put :
    {H : Type 0}
    → (ndn_put : H → Bytes → Option ℤ) → (is_ndn is_data : Bool) → (handle : Run H)
    → (content_object : Run Bytes) → Run ℤ
cmd_put ndn_put is_ndn is_data py_handle py_content_object = do
  guard is_ndn type_error
  guard is_data type_error
  handle ← py_handle
  content_object ← py_content_object
  or_raise (ndn_put handle content_object) io_error

-- _pyndn_cmd_get_default_key_name(), on what ndn_get_public_key_and_name() writes; none: it reports
-- failure.
unfoldable pub cmd_get_default_key_name : NameLib → Option Bytes → Run (List Bytes)
cmd_get_default_key_name lib default_key_name = do
  name ← or_raise default_key_name memory_error
  name_obj_from_ndn lib name
