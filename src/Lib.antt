-- ===== src/Lib.antt =====
-- waylandpp: the C++ bindings of the Wayland libraries and the scanner that generates the classes of a
-- protocol.
--
-- The program's parts. `scanner/scanner.cpp` reads a protocol description and prints a class for each
-- interface, with a dispatcher for its events and the tables of messages for libwayland. The printed
-- classes derive from `proxy_t` (`src/wayland-client.cpp`, `include/wayland-client.hpp`), a handle of a
-- `wl_proxy` whose copies share counted data. libwayland calls `proxy_t::c_dispatcher` for an event, which
-- turns the arguments of the wire into values by the printed signature and calls the printed dispatcher.
--
-- The files, with the code that they are about:
--   Prelude            shared names, tests on numbers, lists, integers with a sign
--   Runtime            exceptions, undefined behaviour and state as a monad; the C library as a function
--                      of the calls that were made before
--   Client.Proxy       the objects, the shared data (`proxy_data_t`), `proxy_release`, the destructor
--   Client.Proxy.Methods
--                      the other methods of `proxy_t`: copies, moves, constructors, setters, requests
--   Client.Proxy.*     the invariant of the counters (Invariant), what each method does with it (Release,
--                      Destroy, Destructor, Copies, Construct, Wrapper, Settings, Last), single actions
--                      (Lifecycle) and histories of actions (History)
--   Client.Dispatch    `proxy_t::c_dispatcher`; its loop (Decode), the printed signatures against the types
--                      that a printed dispatcher reads (Signature) and against the table of interfaces
--                      (Length)
--   Client.Display     `read_intent` and the calls of `display_t` on its display; the life of an intent
--                      (Intents), the loop that obtains one (Obtain), the objects of `display_t` and their
--                      requests (Connect, Connected)
--   Prelude.Assoc      association lists
--   Server.Store       the handles of the server library with the data that their copies share
--                      (`src/wayland-server.cpp`, `include/wayland-server.hpp`), and what the methods of
--                      all its classes do alike; the invariant of the counters (Inv), what a class promises
--                      (Counted), single methods (Steps, Release, Wrap, Shared), histories (History)
--   Server.Display, Server.Loop, Server.Client, Server.Resource, Server.Global
--                      `display_t`, `event_loop_t` with `event_source_t`, `client_t`, `resource_t` with its
--                      events (Events), `global_base_t` and `global_t`; in Handles that each class keeps
--                      the promise, and what its data goes through
--   Server.Dispatch    `resource_t::c_dispatcher`; the objects of its arguments (Objects) and
--                      what they leave counted (Counts), its loop (Decode)
--   Server.Callbacks   the functions in which classes meet: new resources (Created), binding to a global
--                      (Bind), lists of handles (Lists), the loop of a display (Borrowed) and what is left
--                      of its handles after the display (Orphans)
--   Util.Any           `any` of `include/wayland-util.hpp`; the values without addresses (Values), the owners
--                      of values (Owners, Changes), programs and what they intend (Actions, Steps, Refines)
--   Util.Argument      `argument_t` of `src/wayland-util.cpp`; what becomes of its array (Arrays)
--   Util.Shared        `refcounted_wrapper` and `basic_wrapper` of `include/wayland-util.hpp` with the classes
--                      that keep both kinds of pointer; the blocks and counts (Blocks, Counts), the operations (Operations),
--                      what a program does (Actions, Performed), histories (Ends), new objects (Made) and
--                      an object through operations on others (Holds)
--   Util.Array         `array_t` of `src/wayland-util.cpp`; its conversions (Vectors)
--   Util.Bitfield      `bitfield` of `include/wayland-util.hpp`; its complement (Complement)
--   Cursor             `src/wayland-cursor.cpp`: `cursor_theme_t`, `cursor_t`, `cursor_image_t`; each function
--                      (Themes), images after their theme (Lifetime)
--   Egl                `src/wayland-egl.cpp`: `egl_window_t`; its construction (Windows)
--   Log                the log handlers of both libraries; what they give the program (Messages)
--   Scanner.Text       texts, output streams and the number formats of the scanner
--   Scanner.Model      `argument_t`, `event_t`, `enumeration_t`, `post_error_t`, `interface_t`
--   Scanner.Names      keywords, `sanitise`, `unprefix`
--   Scanner.Print      the print functions of arguments and messages, with those of requests (Request),
--                      enumerations and errors (Enums), classes (Classes) and tables (Tables)
--   Scanner.Read       the loops of `main` over the elements of a description; numbers (Numbers), opcodes
--                      and identifiers (Opcodes), widths of enumerations (Widths)
--   Scanner.CommandLine
--                      `parse_args`
--   Scanner.Files      what `main` writes through the first streams of the two files
--   Scanner.Main       `main`, its second streams included; what is in the files at the end (Streams)
--
-- State and operations. An object is a place (`Loc`) with the members of `proxy_t`; data stands on a heap
-- under its address, 0 is the null pointer, and freed data leaves its address empty, so that a use after
-- free is undefined behaviour (`fault`). A method is a function from states to outcomes. The object that
-- a data holds as `wrapped_proxy` has a place of its own, the data's. Calls of libwayland are recorded in
-- the state; what they return is given by an argument `Env`.
--
-- The server library has five classes with one scheme: a native object, and data with a counter. A handle
-- is a record of the two addresses, in a variable that has a number; data is a cell on the heap, with the
-- members of its class. A class gives to the shared methods what it does to give a reference up and to
-- take one; `Counted` is the interface. A function that the program sets is an address, and its call is
-- recorded as `handler`. Listeners are members of the data and have its address. `client_t` and
-- `resource_t` give no reference up: what the library holds deletes their data. Which listeners the library
-- notifies is an argument of the functions that make it do so: `ends` for what ends with a display
-- (`Ending`), `listening` for what hears of new clients and resources, `listed` for the lists of clients and
-- resources. The copies of a resource in a vector of arguments have no variable of their own; each counts a
-- reference.
--
-- Wrappers of native objects have a state of their own: the objects with their two pointers, and the blocks of
-- the `shared_ptr`s with their counts, which are unbounded numbers. The cursor and EGL classes work on that
-- state. What a cursor theme owns is gone with it, so that a later access is undefined behaviour. The
-- `event_queue_t` inside the data of a proxy is an address.
--
-- Bounds and fuel. Counters are 32 bits wide and wrap; the theorems that retain data ask for room. The
-- destructor of a wrapped proxy runs inside the destructor of the last copy of its wrapper; its fuel is
-- bounded by the address of the data, since a wrapped proxy's data is older than its wrapper's. The loop of
-- `obtain_read_intent` takes one unit of fuel for each time that the library refuses. All other loops are
-- structural, but for those over the bytes of an array, whose fuel is the number of bytes: each step takes at
-- least one.
--
-- Not modelled: libwayland and pugixml, which are not in the repository and enter as arguments (`Env`; `Library`; `ends`, `listening`, `listed`;
-- `vsnprintf`; `attribute`, `children` and `text` of a node); what `std::log2` and the cast of its result
-- give, an argument too; threads; the contents of event handlers; the memory that libwayland allocates for an
-- array.
pub mod Prelude
pub mod Runtime
pub mod Client
pub mod Server
pub mod Util
pub mod Cursor
pub mod Egl
pub mod Log
pub mod Scanner
