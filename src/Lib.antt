-- ===== src/Lib.antt =====
-- Verification of the HomePlug AV utilities: the library that builds, sends, receives and
-- reassembles management messages (MMEs) over libpcap, and the key and interface code beside it.
--
-- Parts, and how they interact. A request is a packed struct, which an encoder puts behind an MME
-- header into a packet; hpav_build_frames makes an Ethernet frame of it; an exchange sends the
-- frame and calls pcap_dispatch, which calls rx_callback for each captured packet, until time is up
-- or enough has come; hpav_defrag_frames puts the frames collected together to messages, and a
-- decoder makes answers of them. Failures of libpcap go on an error stack of the caller.
--
-- Errors (hpav_test/libhpav/hpav_error.c): the error stack as a list, the latest error first.
-- Frame (hpav_test/libhpav/hpav_mme.c, structs of hpav_api.h and hpav_mme.h): Frame/Layout has
-- the structs as records over the bytes of the packed struct; Frame/Header
-- hpav_setup_mme_header; Frame/Build hpav_build_frames; Frame/Defrag hpav_defrag_frames and its
-- helpers, with chains as lists.
-- Channel: Channel/Clock (hpav_get_elapsed_time_ms, hpav_compute_elapsed of
-- hpav_test/libhpav/hpav_utils.c); Channel/Callback (rx_callback of
-- hpav_test/libhpav/hpav_mme.h); Channel/Exchange (HPAV_MME_SNDRCV_IMPL of the same file);
-- Channel/Kinds (the exchanges that hpav_test/libhpav_mtk/hpav_mtk_mme.c writes out);
-- Channel/Raw (hpav_send_raw_mme, hpav_send_raw_mtk_mme); Channel/Sniff (hpav_sniff);
-- Channel/Open (hpav_test/libhpav/hpav_chan.c). Channel/Pcap is the parameter that stands for
-- libpcap and the clock: the results of its calls in their order, with the packets of each call
-- of pcap_dispatch.
-- Mme: Mme/Encode and Mme/Decode (the encoder, decoder and copy macros of
-- hpav_test/libhpav/hpav_mme.h and hpav_test/libhpav_mtk/hpav_mtk_mme.c); Mme/Encrypted and
-- Mme/SetKey (encrypted payloads, hpav_cm_set_key_encrypted_sndrcv of
-- hpav_test/libhpav/hpav_mme.c); Mme/Security (hpav_test/libhpav/hpav_security.c). AES, SHA-256,
-- the checksum of zlib and the random bytes are parameters.
-- Mme/Copies has the copies that hpav_test/libhpav_mtk/hpav_mtk_mme.c writes out.
-- Utils (hpav_test/libhpav/hpav_utils.c): Utils/Text (the conversions of addresses and keys from and
-- to texts, and string_to_binary_data of hpav_test/hpav_test/util.c), Utils/Names (hpav_mmetypetos),
-- Utils/Origin (hpav_guess_mme_category, tables of values) and Utils/Rle (the decoder inside
-- hpav_dump_tonemap).
-- Interfaces (hpav_test/libhpav/hpav_if.c, the variant for Linux): the sorted list of interfaces,
-- their addresses, and lookups.
-- Conf (hpav_test/hpav_test/conf_file.c): the configuration file of a station. Conf/Fields has the
-- functions conf_file_modify_* but for the calibration, which is in Conf/Carriers (the map of power
-- backoffs) and Conf/Calibration (the file of ranges, conf_file_modify_psd_cali); Conf/Print the
-- functions conf_file_parse_*; Conf/Modify the commands conf_file_modify and conf_file_parse;
-- Conf/Transfer conf_file_read and conf_file_write, which fetch and store the file with Access.
-- Conf/Json is the parameter that stands for libjson, with the laws of the calls that are used.
-- Access (hpav_test/hpav_test/test_mtk.c): access to the files of a station. Access/Command has the
-- words of the command, Access/Transfer the loop over fragments, Access/Response what is done with
-- the answers, Access/Run the command for all stations, Access/Checksum xorchecksum. The replies of
-- the station to each request are a parameter, in their order.
-- Nvram (hpav_test/hpav_test/test_nvram.c, struct nvram_t of test_nvram.h): Nvram/Image changes and
-- prints the memory image, Nvram/Write makes the request that writes it, with xorchecksum of Access.
-- Commands (hpav_test/hpav_test/main.c): the choice of a command by its words and the channel around
-- it (Commands/Choice); the calls of libpcap and the functions of the other files are parameters.
-- Libc: what these parts use of printf, scanf, strtok and fgets, on texts as lists of bytes.
-- Base: lists measured by native numbers, bytes and copies of memory.
--
-- Other parameters: `open_file` is what a file holds that can be opened; `long_bits` is the width of
-- an unsigned long; `write` is what json_serialize_to_file leaves; `garbage` and `unset` are what variables hold that the code does not set.
--
-- Faults. A function that may read or write outside an object, or through a null pointer, gives an
-- Option, and none is the fault (Base/Fault, Base/Memory). A wait gives a Run (Channel/Run), which
-- returns, faults, or has used up its rounds.
--
-- Bounds and fuel. Sizes and counts of type unsigned int wrap at 2^32 and those of type unsigned
-- short at 2^16, as written out where they are computed; the elapsed time is an int of 32 bits,
-- which wraps too. The loops over pcap_dispatch run on fuel, one unit for each call;
-- Channel/Exchange/Receive and Channel/Sniff say how much is enough. All other loops are
-- structural.
--
-- Not modelled: printing of messages and of error stacks, the commands that only read arguments and
-- print around an exchange, the reading of a memory image from a station,
-- hpav_file_to_binary_data, the commands for encrypted keys and the tests of the hpav_test
-- program, freeing of memory, and the variants for Windows. libjson and the MD5 code of
-- libhpav_mtk are copies of other projects.
mod Base
mod Libc
pub mod Errors
pub mod Frame
pub mod Channel
pub mod Interfaces
pub mod Mme
pub mod Utils
pub mod Conf
pub mod Access
pub mod Nvram
pub mod Commands
mod Tests
