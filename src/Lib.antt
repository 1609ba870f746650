-- ===== src/Lib.antt =====
-- The C core of PyNDN, the Python bindings of NDN (csrc/), the authenticated interests that are
-- compiled into it (csrc/namecrypto/), and the regular expressions on names of its Python package
-- (python/ndn/nre.py).
--
-- Python holds the C data in capsules. The functions called cmd_* and those on Python objects
-- take values apart, call the C library of NDN and wrap what it gives. A name, an Interest or a
-- Data packet is a buffer in the wire format of NDN (ndnb), which the library splits and appends
-- to.
--
-- The parts, and where they are modelled:
-- - Base: the shared helpers. Base/Tests and Base/Lists are tests and lists over the native
--   numbers, Base/ByteString is buffers as lists of bytes and the reads out of them, Base/Int is
--   C integers that go below zero, Base/Run is how a C function ends: with a value, with a Python
--   exception, or by an abort or an access out of bounds (fault).
-- - Wire: the wire format of a name and the functions of the NDN library on it (ndn_name_init,
--   ndn_name_split, ndn_name_comp_get, ndn_name_append), as a record NameLib of functions with
--   their documented behaviour NameLaws. Wire/Layout says where a component stands in a name;
--   Wire/Instance is one concrete format with its functions, so the laws can hold.
-- - Objects: csrc/objects.h and csrc/objects.c. Objects/Types is the table of type names with
--   type2name() and name2type(), Objects/Access is what checks and opens a capsule, with
--   NDNObject_Borrow() and NDNObject_New_Closure(), Objects/Lifetime is NDNObject_New(),
--   NDNObject_New_charbuf() and the destructor, as the list of what they release. Objects/Charbuf
--   is the commands dump_charbuf() and new_charbuf() of csrc/methods.c.
-- - Name: csrc/methods_name.c, the list of components of a Python Name and the encoded name.
--   Name/Uri is the commands for URIs. Name/Decode, Name/Encode and Name/Buffer prove about
--   name_comps_from_ndn(), name_comps_to_ndn() and the decoder of buffers.
-- - Namecrypto: csrc/namecrypto/authentication.c, authentication.h and KDF() of encryption.c.
--   Namecrypto/State is the state of an application and verify_update_state_freshness(),
--   Namecrypto/Sign is authenticateCommand() and authenticateCommandSig(), Namecrypto/Verify is
--   verifyCommand() with all it calls. Freshness, Attempt, Replay, Soundness, Extract, Fields,
--   RoundTrip and Malformed are proofs. Namecrypto/Commands is the Python commands of
--   csrc/methods_namecrypto.c, and Namecrypto/NewState is nc_new_state(), with the capsule of its
--   state. OpenSSL is the record Crypto; the clock is an argument of type TimeVal.
-- - Ndnb: the elements of the wire format beyond names, as the records Encoder (the functions
--   that append to a charbuf) and BufDecoder (those on a struct ndn_buf_decoder), with what is
--   relied on of them (Appends, Decodes). Ndnb/Fields is one blob, optional or required, as all
--   decoders read it; Ndnb/Numbers is numbers and whole elements; Ndnb/Instance is a small format
--   in which the laws hold.
-- - Signature, SignedInfo: csrc/methods_signature.c and csrc/methods_signedinfo.c, with
--   _pyndn_unicode_to_utf8() of csrc/util.c. Signature/RoundTrip, SignedInfo/Decode and
--   SignedInfo/RoundTrip are proofs; SignedInfo/Creator is an ndn_signed_info_create() for the
--   tests.
-- - KeyLocator: the key locators of csrc/methods_key.c, with KeyLocator/RoundTrip.
--   Key_obj_from_ndn() is a parameter there.
-- - Key: csrc/key_utils.c and the rest of csrc/methods_key.c: ndn_keypair(),
--   create_public_key_digest(), generate_key(), Key_obj_from_ndn(), and in Key/Files keys in PEM
--   and DER with their commands. OpenSSL is the records Ssl and Pem. Key/Halves proves about the
--   two halves of a key. Key/Generate is generate_RSA_key() of csrc/methods.c with the references
--   that it gives up, Key/FileHandle the opening and closing of a file (csrc/util.c).
-- - RunState: the chain of handles for which ndn_run() is executing (csrc/util.c),
--   _pyndn_cmd_run() and _pyndn_cmd_is_run_executing() (csrc/methods_handle.c). RunState/Threads
--   is about threads in any order, RunState/Bag about the chain as a bag, a quotient that forgets
--   the order of its nodes.
-- - Interest: csrc/methods_interest.c, Interest_obj_to_ndn() with its attributes as they come
--   from Python. Interest/Encode proves about it; Interest/Parse is Interest_obj_from_ndn() and
--   _pyndn_interest_get_pi(); Interest/Stale is the lifetime there and back and the struct that a
--   failed parse leaves. Interest/Exclude is ExclusionFilter_names_to_ndn(). The functions of the
--   library are the records Encoder and Decoder; Interest/Layout says how the protocol lays an
--   Interest out and what is relied on of the parser, Interest/Ranges reads the attributes out of
--   such an Interest, Interest/RoundTrip composes encoder and decoder, and Interest/Small is a
--   parser for which those laws hold.
-- - Data: the parsed form that a capsule of a Data packet carries (csrc/methods_contentobject.c).
--   Data/Cache proves about parse_Data(), _pyndn_content_object_get_pco() and
--   _pyndn_content_object_get_comps(). Data/Packet is Data_obj_from_ndn() with its parts, and the
--   commands for the digest and for verification; it composes the decoders of Name, Signature and
--   SignedInfo, and Data/Decode proves about the whole. Data/Match is content_matches_interest(),
--   Data/Encode is encode_Data() and the conversions of a content; Data/RoundTrip composes the
--   encoder of names, SignedInfo_to_ndn(), encode_Data() and Data_obj_from_ndn(); Data/Signer is
--   functions for which its laws hold, and Data/Sample a packet for the tests.
-- - Handle: get(), put(), the name of the default key and the commands that make one call on a
--   handle (csrc/methods_handle.c); the default key itself is in Key. Handle/Get proves about
--   get().
-- - Upcall: closures in csrc/methods_handle.c: UpcallInfo_obj_from_ndn(), ndn_upcall_handler(),
--   _pyndn_cmd_express_interest() and _pyndn_cmd_set_interest_filter(), on a store of the
--   capsules that are alive. Upcall/Closures is about calls and upcalls in any order.
-- - Pyndn: csrc/pyndn.h and csrc/pyndn.c. Pyndn/Types is _pyndn_get_type() with its table,
--   Pyndn/Classes is about the classes that it keeps over any calls, Pyndn/Exceptions is
--   initialize_exceptions(), Pyndn/Upcalls is the upcalls of Upcall with the class that they ask
--   for. Commands on the state of an application (Namecrypto/Commands) look up the name of its
--   type first, which aborts in a build with assertions.
-- - Nre: python/ndn/nre.py, the regular expressions on names. Nre itself is the trees of matchers
--   with match() and aggressiveMatch(), on a list of the results of the groups that is passed on;
--   Nre/Text and Nre/Compile are the constructors, from the text on, and Nre/Regex is
--   RegexMatcher. Nre/Language says what an expression stands for, and Nre/Decides, Nre/Repeat
--   and Nre/Search that the search finds it; Nre/Deep is about repetitions of what may be empty,
--   Nre/Safe, Nre/Sets and Nre/Terminates about the end of the constructors, Nre/Fuel about their
--   fuel, Nre/AnyComponents about the part that is put before and behind an expression, and
--   Nre/Whole composes them. Nre/Keep and Nre/Frame are about the results of groups that a search
--   leaves as they were, Nre/Capture about what a group holds after a match. The module re is the
--   record ReLib.
-- - The modules called Runs hold tests and examples.
--
-- The functions of C and Python become functions by clauses. What they change through a pointer
-- is a further component of the result: verify_command gives the code and the state of the
-- application, object_new gives what has been released. A null pointer is none. The fields of a
-- state are 32 bits wide and wrap around where the code stores into them.
--
-- Bounds: a buffer is a list and its sizes are natural numbers, so buffers of 2^32 bytes and
-- more, whose sizes would wrap, are outside of the model. The name of an application is shorter
-- than 2^16 where its length is written in two bytes. The loop over ndn_name_comp_get() runs on
-- fuel, the number of offsets, which is enough since there is no component past them. Failures of
-- malloc() are modelled in Objects, RunState, Interest, Signature, KeyLocator, and in the cache
-- of Data; where a capsule or a Python object is made along the way, and in Namecrypto, there is
-- memory enough. A byte of a buffer is a number that is not bounded. A Python float is a
-- numerator over a power of two, on which the products and quotients of the code are exact, as
-- they are on doubles, for lifetimes of up to six bytes. The constructors of regular expressions
-- run on fuel, the length of the text and one more; the limit of Python on recursion is counted
-- for the recursion of a RepeatMatcher alone, as `depth`, and every call of match() has all of
-- it.
--
-- Not modelled: what a call changes inside of a handle of the library; the name of the seed file
-- of the random generator; the look-up of the classes of the other objects while one is made,
-- which finds them; functions of csrc/key_utils.c, csrc/methods.c, csrc/methods_name.c and
-- csrc/methods_interest.c that nothing calls; the table of methods (csrc/pyndn.c), output for
-- debugging (csrc/util.c, csrc/namecrypto/toolkit.c); the Python package (python/) besides
-- python/ndn/nre.py, and there the rule of extract() as a text, tests and examples.
pub mod Base
pub mod Wire
pub mod Ndnb
pub mod Signature
pub mod Handle
pub mod Key
pub mod KeyLocator
pub mod SignedInfo
pub mod Objects
pub mod Name
pub mod Namecrypto
pub mod Pyndn
pub mod Nre
pub mod RunState
pub mod Interest
pub mod Data
pub mod Upcall
