-- ===== src/Lib.antt =====
-- A model of the OAI 5G core Network Slice Selection Function (NSSF), with proofs about it.
--
-- The program answers two kinds of requests: which slices and which AMFs a registering UE gets
-- (Nnssf_NSSelection), and which slices an AMF supports (Nnssf_NSSAIAvailability). Both an HTTP/2 and an
-- HTTP/1 server pass them to the application, which hands them to slice selection or to availability;
-- these read the slice configuration, which is parsed from YAML when the program starts.
--
-- The parts, and the files of this library that model them:
--   src/nssf_app/nssf_config.hpp             Config: the structs, as records of the same fields
--   src/nssf_app/nssf_config.cpp             Config.Parse: one function per parsing function, and one per
--                                            round of its loop; Config.Yaml is the library yaml-cpp
--   src/nssf_app/nssf_slice_selection.cpp    Selection and its children: one function per function, and
--                                            one per loop
--   src/nssf_app/nssf_slice_availability.cpp Availability
--   src/nssf_app/nssf_app.cpp                App
--   src/nssf_app/nssf_config_types.cpp       Config.Start, with the constructor and init of nssf_config
--   src/api-server/nssf-http2-server.cpp     Http2.Handlers, the request handlers; Http2.Routes, the
--                                            callbacks; Http2.Server, their registration and what they
--                                            share; Http2.LifeCycle, start and stop as steps of threads
--   src/api-server/impl                      Http1.Impl, the operations of the HTTP/1 server
--   src/api-server/api                       Http1.Operations, the interfaces of the generated classes;
--                                            Http1.Api, their handlers; Http1.Routes, their routes
--   src/api-server/nssf-api-server.cpp       Http1.Server, the objects; Http1.Routes.Setup, the routes
--                                            that init adds; Http1.Endpoint, the calls of the endpoint;
--                                            Http1.Routes.Sequence, requests in sequence
--   src/oai_nssf/options.cpp                 Program.Options
--   src/oai_nssf/main.cpp                    Program.Main, and Program.Whole with the files it reads
--
-- Program.Service, Program.Registration and Program.Slices put them together, from the configuration file
-- to a reply of the HTTP/1 server and of the HTTP/2 server.
--
-- What is shared: Base holds Boolean tests, lists and lemmas on them; Model the classes of the 3GPP data
-- model, which are generated code of the submodule common-src and so a parameter of everything: an
-- abstract type for each class with the getters and setters that the program calls, and for each setter
-- the law that it sets one attribute and keeps the rest; Server the interface to the libraries that parse
-- requests and print answers, and the monad of handlers, which send events and may throw. Tests holds a
-- concrete instance of the parameters and runs on it.
--
-- Conventions: a function of the program that changes reference parameters returns their new values; the
-- global `nssf_cfg` is an argument, and a result where it might be written. A loop is a structural
-- recursion on the list that it runs over, so nothing runs on fuel. The type `int` of status codes is ℕ,
-- since only constants are stored in it; an SST is an ℤ. Logging is left out.
--
-- How the parts are joined: the classes of src/api-server/impl are a record of operations that fills the
-- interface which the generated handlers take as a parameter, and the proofs about the handlers use the
-- contract of that interface only (Http1.Api.Handlers.Answers). The objects of the
-- HTTP/1 server are functions of the configuration, which its operations read when they are called. The router of Pistache is a record with
-- its documented behaviour as laws; Tests.Router has an instance. Threads and requests in sequence are
-- step relations, with their reachable states as data types. A handler of the HTTP/2 server is described
-- by the calls that it makes on its response; which of them nghttp2 sends is not modelled. That
-- `listen_and_serve` returns after a `stop` while it serves is documented of nghttp2, and is a step of
-- Http2.LifeCycle, which records whether `stop` was called.
--
-- Not modelled: the sockets and event loops of the servers, which are calls of libraries; the libraries
-- for JSON, YAML, HTTP and command lines, which are parameters, as is the common code of common-src,
-- with the base class of the configuration; requests that threads of the HTTP/1 endpoint handle at the same
-- time, which the model takes one after another; and what is printed and logged.
pub mod Base
pub mod Model
pub mod Config
pub mod Selection
pub mod Availability
pub mod App
pub mod Server
pub mod Program
pub mod Http1
pub mod Http2
pub mod Tests
