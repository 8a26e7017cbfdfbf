-- ===== src/Lib.antt =====
-- A model of aioptool, the tool by which a host loads and controls the AIOP tile of an NXP QorIQ
-- processor, and theorems about it.
--
-- The program has five layers. `main` (src/aiop_tool.c) has the command line parsed, gets a handle
-- from the library and calls the operation of the sub-command. The command line (src/aiop_cmd.c)
-- collects options in one global structure. The library (src/aiop_lib.c) finds the devices of a
-- container, opens the AIOP device, makes requests and closes it. The DPAIOP functions
-- (flib/mc/dpaiop.c) turn a request into a command of eight words. The portal (flib/mc/mc_sys.c,
-- flib/mc/fsl_mc_cmd.h) writes a command to the registers of the management complex, the MC, waits
-- for the status to change and reads the response. Beside them, VFIO (src/vfio/fsl_vfio.c) gives
-- the library the device of a container and maps memory for it.
--
-- Mc.Wire models flib/mc/fsl_mc_cmd.h: `mc_enc`, `mc_dec`, the macros that put fields into words,
-- and `mc_encode_cmd_header`. A word is a natural number below 2 ^ 64.
-- Mc.Portal models flib/mc/mc_sys.c: `mc_send_command` with the order of its register accesses,
-- over a device whose state is abstract, since the hardware is not part of the program.
-- Dpaiop.Types, Commands, Responses and Calls model flib/mc/fsl_dpaiop.h, flib/mc/fsl_dpaiop_cmd.h
-- and flib/mc/dpaiop.c: one function for each of the nineteen, which may return a value beside the
-- error code where the C function stores through a pointer. Dpaiop.Decode is a specification, the
-- wire format as the MC reads it, and Dpaiop.Server is the contract with the hardware: a server
-- that answers requests.
-- Os lists what the program calls of the C library and the kernel.
-- Aiop models include/aiop_lib.h and src/aiop_lib.c. Types has the objects, Session the four
-- operations that need only the open device, Load the opening of the files and the requests that
-- load and run an image, Load.Image the function `aiopt_load` around them, with one function for
-- each part between two of its `goto`s and for each label. Setup finds the two devices and fills
-- in the object; Setup.Devices has the search through a directory, `aiopt_init` and
-- `aiopt_deinit`. State has the texts of the tile's states. Aiop.Ledger is a specification: calls
-- of the system that write down, beside any state, what is taken and given back, and are otherwise
-- the calls they wrap. One ledger has the files and mappings: memory counts as given back when all
-- its pages are unmapped, a mapping for the device when the kernel unmaps its whole size. The
-- other, Ledger.Blocks, has the memory from `calloc`, compared as a bag, without its order.
-- Vfio models the tables of src/vfio/fsl_vfio.c, which hold one group and one container, with
-- `fsl_vfio_setup` and `fsl_vfio_destroy`, Vfio.Dma the mappings of memory for the device, and
-- Vfio.Device the portal's mapping and the queries for devices. The path with the name of a container must
-- fit a buffer of 100 bytes, or it is an error of memory; from the command line it has at most 9.
-- Cmd.Types, Args, Options and Handlers model include/aiop_cmd.h and src/aiop_cmd.c: the global
-- structure is a value that each function takes and returns, and a buffer is the text in it.
-- Logger models src/aiop_logger.c and include/aiop_logger.h: two flags, and what each macro prints.
-- Tool models src/aiop_tool.c and include/aiop_tool.h: the configuration, the table of operations,
-- the operations and `main`. The results that the operations print are a list of the values that
-- the formats take; error messages are left out. The wait in `select` is a parameter. A variable
-- that C may read before it is set has an arbitrary value, `Unset`. Tool.Logging sets up the logger,
-- and Tool.Dummy models src/aiop_tool_dummy.c and the `main` of the unit test's build.
-- Base holds what the modules share, and Tests concrete inputs.
--
-- A run of code returns, commits an error of memory that C leaves undefined (`fault`), or ends its
-- budget of rounds (`spinning`). The only loop that needs a budget is the busy-wait of
-- `mc_send_command`. Any number of reads above the number of READY answers is enough; a device
-- that answers READY for ever makes the C code hang. All other loops run over the words of a
-- command, the options, a table or the entries of a directory.
--
-- Not modelled: the texts that are printed, among them those of `usage`, which copies the name of
-- the tool to a block of its own and frees it, `print_aiopt_obj`, which prints only, and
-- `aiopt_get_aiop_token`, which nothing calls. Memory from `calloc` is a number that is passed to
-- `free`, and no two calls of `calloc` need return different ones. A directory is given by the
-- entries that it lists. `getopt_long` is a parameter that gives the options of an argument list;
-- it sees the option table of the program, which is fixed.
pub mod Base
pub mod Mc
pub mod Dpaiop
pub mod Os
pub mod Vfio
pub mod Aiop
pub mod Logger
pub mod Cmd
pub mod Tool
pub mod Tests
