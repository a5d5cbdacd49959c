-- ===== src/Lib.antt =====
-- uctool: the masternode licence service. Users bind masternodes in a database; the licence tool
-- (licensetool) signs and renews their licences there, the center (ulordcenter) answers requests for
-- a node's licence over TCP, and the tools (tools) show and check what there is.
--
-- The parts, their files, and the code that they model:
--   Common       lists, texts, integers and Boolean tests that all parts use
--   Net          muduo's Buffer and byte order functions: an interface with their documented laws
--   Chain        the UlordChain sources (keys, base58, licence words, serialisation): an interface
--   Codec        ulordcenter/codec.h: LengthHeaderCodec::onMessage is on_message, a loop of turn and
--                judge over a buffer; send is send. Stream, Wire and Delivery follow a connection,
--                Connections any number of them over one codec
--   Keys         common/ulord.cc: CKeyExtension; the constructors are from_new_key, from_string and
--                from_encoded, Encode is encode; none stands for the thrown -1
--   Node         CMNode and CMNCoin of common/ulordDB.h and common/ulordDB.cc
--   Numbers      the C library's %ld and atoi, by which numbers go into statements and out of rows
--   Mysql        common/MySQLConnection.cc over the MySQL client library, an interface; a Session is
--                the connection object with the log of its statements; Post, Execute, Insert and
--                Variables have its theorems, Live those on a server that is up, and Results the
--                owner of a result
--   Db           CUlordDb of common/ulordDB.cc: the statements, the decoding of rows, each method
--                (Live: on a server that is up)
--   KeyRing      the loop that loads -privkey1, -privkey2, ... in both servers
--   Watcher      licensetool/licensewatcher.cc: SignMNLicense is sign_mn_license, UpdateDB update_db.
--                Table, Writing and Renewal follow a round on the table of masternodes, an abstract
--                view of the database (Node/Table)
--   LicenseTool  licensetool/licmain.cc: main is lic_main on the modes of mode_of, Run is run_rounds
--                (Statements: what it writes; Settled: when nothing is left to do)
--   Settings     LoadConfigFile of common/utils.cc, and its file (Files); StdMap is std::map with a text as
--                its key
--   Formatting   Strings::Format and Strings::Append of common/utils.cc, over vsnprintf
--   Hex          Hex2Int and Hex2Int64 of common/utils.cc; Reading gives them dumps of numbers
--   Center       ulordcenter/ulordcenter.cc: the cache and SelectMNData (Keyed, Cache, View), the
--                requests and replies (Requests, Covered, Replies, Archive), the start of the cache
--                (Start), the idle connections (Idle, Events), a lookup on the table (Serving)
--   Server       the center as a whole: InitUCenterKey is init_ucenter_key, and serve is what the
--                codec calls for each message. Runs and EndToEnd follow whole runs; Main is
--                ulordcenter/ucentermain.cc, and Starting its start on a database that is up
--   System       licence tool, center and client over one database
--   Client       tools/msgtool.cc: MSTRequest is mst_request, the ask commands are ask_license and
--                ask_key_version, over what the socket does; Archives has MsgSerialize and
--                MsgDeserialize
--   DbTool       tools/dbtool.cc: dbcheckall and dbgetall; Selecting has the other three commands
--   KeyTool      tools/keytool.cc: the commands on keys, NewKey is new_key and so on
--   MasternodeTool  tools/masternodetool.cc: mnhash and mnbstunseri
--   Tool         tools/main.cpp: RegisterCmd is register_cmd, main is main_tool
--   ScriptTool   tools/scripttool.cc: scriptpub and base58prefix
--   Vds          vdstool, and tools/blockhash.cc: the header of a block and its hash
--   Reward       tools/reward.cc: the reward of a block and the three tables (Tables, Shown)
--   Tests        the theorems at concrete inputs, on a simple buffer, chain and database
--
-- How they meet: the bytes of a connection go through the codec to on_string_message, which looks
-- nodes up through select_mn_data, which reads the database through Db and Mysql; the licence tool
-- selects, signs and writes through the same two. Time is an argument of each call. A call of the
-- client library is a function of the state of the world.
--
-- Fuel: the codec's loop has one round more than there are bytes, and each round that goes on takes
-- a header of four bytes; execute makes four attempts at most; the key loop has more fuel than there
-- are keys up to a version that is not configured; rewardstatus has as much fuel as it is asked for
-- rounds. The fuel of rewardshow is an argument, as its loop need not end.
--
-- Not modelled: logging and sleeping, the set-up of the processes and of the chain, threads (one
-- callback runs at a time), and the copy of muduo under ulordcenter/3rdlibs.
pub mod Common
pub mod Net
pub mod Codec
pub mod Chain
pub mod Keys
pub mod LicenseTool
pub mod MasternodeTool
pub mod Mysql
pub mod Numbers
pub mod Node
pub mod Db
pub mod KeyRing
pub mod KeyTool
pub mod Vds
pub mod Watcher
pub mod Formatting
pub mod Hex
pub mod Center
pub mod ScriptTool
pub mod Server
pub mod Settings
pub mod StdMap
pub mod System
pub mod DbTool
pub mod Client
pub mod Reward
pub mod Tests
pub mod Tool
