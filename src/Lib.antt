-- ===== src/Lib.antt =====
-- Verification of the host daemon of the R503 fingerprint reader, pcside/daemon/src.
--
-- The daemon speaks to the sensor's microcontroller over a serial port, in an authenticated channel:
-- every command and every response is a frame with a counter and a SipHash-2-4 MAC. The registry says
-- which slot of the sensor's flash holds which finger of which user, and the state file keeps the
-- counter of the next command. The sensor's driver frames a command, persists the counter before it
-- sends, and checks every response against key, counter and sequence number.
--
-- Which file models which part, with the definitions named as the functions they stand for:
--   Crypto     pcside/daemon/src/crypto.rs: siphash24 and its round, the loop over the blocks
--              (absorb), the loop over the tail (or_tail); Crypto.Spec has SipHash-2-4 as in the paper.
--   Hex        mac_to_hex of crypto.rs, nybble of framing.rs.
--   Decimal    the printing and reading of numbers that framing.rs uses; parse_strict_u64 and _u32.
--   Framing    pcside/daemon/src/framing.rs: encode_, parse_ and verify_ for commands and responses.
--   Disk       how a file is replaced, as storage.rs and state.rs do it: temporary file, write,
--              synchronisation, renaming, each of which may fail.
--   Storage    pcside/daemon/src/storage.rs: open (open_registry), list_fingers, get_slot,
--              get_user_slots, allocate_slot, set_slot, remove_finger, save.
--   Counter    pcside/daemon/src/state.rs: load, save, delete.
--   Sensor     pcside/daemon/src/sensor.rs: advance_counter, read_line, execute, execute_framed,
--              execute_unframed; apply_auth of sensor_actor.rs. Sensor.Commands has the commands (info,
--              enroll, verify, identify, delete, clear, wake, ping, led_off) with expect_ok, parse_kv and
--              parse_field; Sensor.Commands.Answers has the line of a match, of firmware/r503fp/r503fp.ino;
--              Sensor.Opening has find_port, open and sync.
--   Actor      pcside/daemon/src/sensor_actor.rs: the worker of SensorActor::spawn (work, serve, reopen),
--              handle_request, respond_with_error, is_fatal_io; Actor.Senders has send and the callers
--              of the worker (info to led_off, here ask_info to ask_led_off).
--   Tpm        pcside/daemon/src/tpm.rs: validate_pcrs, parse_pcr_list, serialize_blob,
--              deserialize_blob, policy_of_blob; Tpm.Sealing has seal_key, seal_key_with_pcrs,
--              seal_key_no_policy and unseal_key; Tpm.Sealing.Honest says what is documented of a TPM.
--   Keystore   pcside/daemon/src/keystore.rs: load_key, load_key_with_source, save_key, key_hex,
--              parse_key_hex; Keystore.Removing has delete_key, save_key_sealed_with_pcrs,
--              save_key_sealed_no_policy, delete_sealed_key, delete_all_keys.
--   Device     pcside/daemon/src/dbus_iface.rs: DeviceState with start_action, end_action_if_owner,
--              the gate of begin_delete, ensure_claim, claim, release, handle_client_disconnect,
--              verify_stop, enroll_stop, validate_finger.
--   Pairing    pcside/daemon/src/pairing.rs: parse_status, resync_target, run_resync; Pairing.Policy has
--              run_reseal_policy, Pairing.Unpair run_unpair, Pairing.Pair run_pair and run_reseal_tpm,
--              Pairing.Overview run_status, and Pairing.Link the link: Link::open (open_link) on an open
--              port, cmd_labeled, read_line (read_reply).
--   Program    pcside/daemon/src/main.rs: the arguments and what runs for them (dispatch), the path of
--              the registry; Program.Startup the start with SensorActor::spawn of sensor_actor.rs,
--              Program.Watcher spawn_disconnect_watcher, and Program.Restart a start after a pairing.
--   Auth       pcside/daemon/src/auth.rs: authorize_username, resolve_caller, validate_username.
--   Service    the calls, captures and deletions of dbus_iface.rs in flight at once, as a state with
--              events: verify_start, enroll_start and their tasks, delete_user_fingers and its callers,
--              the permit of capture_slot.
--   Verification  the retry loop of the task that verify_start of dbus_iface.rs spawns.
-- Sensor uses Framing, Counter and Disk; Storage uses Disk; Framing uses Crypto, Hex and Decimal;
-- Verification and Actor use the errors of Sensor; Keystore uses Disk, Hex and Tpm;
-- Service uses Device and Storage; Pairing uses Keystore, Tpm and Counter; Program uses Keystore,
-- Storage, Device and Pairing.
-- Modules below a component's hold its lemmas; those named Tests hold runs at concrete inputs.
--
-- A text is the list of its bytes. Unsigned integers are natural numbers with the wrap-around and the
-- bounds written out. A HashMap is an association list. An operation that can fail returns a Result;
-- one that changes state returns the new state beside it. The results of system calls are arguments:
-- a Trial for the replacement of a file, Calls and a list of arrivals for a command on the port. A
-- process that stops before a call leaves the files as one whose call failed.
--
-- The loop that waits for an answer runs on fuel: the bytes and the reads that are left, and one. Each
-- line that is read takes at least its line feed, so this is enough. The handshake of the sensor and the
-- link of the pairing wait in the same way. The readers of numbers and the SipHash loops recurse on
-- what is left of their input, the retry loop on the retries that are left.
--
-- The worker opens the port with four tries, which are counted down.
--
-- Parameters: serde_json (a Codec that reads back what it has written), from_utf8_lossy, to_lowercase,
-- the kinds of io errors, the driver behind the worker (Actor.Driver), the TPM library
-- (Tpm.Sealing.Library, with what is documented of it in Tpm.Sealing.Honest), the bus, the password file and polkit (Auth.World), what each pass of the
-- retry loop meets, and what the pairing's link answers to a command.
--
-- Not modelled: savings of the registry that overlap (each runs alone), the bus and its signals, the generation of keys, TPM diagnostics, the printing of the
-- status, clocks, logging, and the firmware but for the line it prints for a match.
mod Prelude
pub mod Crypto
pub mod Decimal
pub mod Hex
pub mod Framing
pub mod Disk
pub mod Storage
pub mod Counter
pub mod Sensor
pub mod Actor
pub mod Device
pub mod Tpm
pub mod Keystore
pub mod Pairing
pub mod Auth
pub mod Service
pub mod Verification
pub mod Program
