-- ===== src/Lib.antt =====
-- A verification library for PyLinda: the Minimal language (minimal/src), in which values and types
-- are described, and the C client of the tuple space server (liblinda/src).
--
-- The parts and how they interact. Minimal_addName and its kin (minimal/src/syntax_map.c) keep the
-- names of a layer. The objects of the language are reference counted; Minimal_delReference
-- (minimal/src/refcount.c) calls Minimal_performCyclicCollection (minimal/src/cyclic_garbage.c) when
-- a count falls and does not reach 0, and the name map reports and releases its values for it
-- (Minimal_SyntaxMap_getReferences, Minimal_SyntaxMap_empty). Values (minimal/src/values.c,
-- value_funcs.c) are compared, and stored in tuples. A client makes a message, writes it as a
-- document and frees it (liblinda/src/message.c); the other side reads it (liblinda/src/messageread.c).
--
-- The files:
--   Base          the shared names, tests on numbers, lists and integers over the native numbers,
--                 and `Outcome`: a call that returns, ends the process, or crashes
--   NameMap       minimal/src/syntax_map.c: init, add_name, get_name, get_name2, del_name, empty,
--                 get_references, size and list_names are the functions of the same names
--     Strcmp      what C says of strcmp, a parameter, and the results -1, 0 and 1; Lex is an instance
--     Order, Insert, Client, Delete   the search order, adding, sequences of adding, deleting
--   Message       liblinda/src/linda_internal.h: `struct Message_t`; the members of the union
--                 share three words, of which each says what was last written to it
--     Xml, Codec  a document as a tree; the texts of values, integers and ids, which are parameters
--                 (Serial/Datum/Transport has an instance)
--     Make        the making functions of liblinda/src/message.c, by the kind of message
--     Write       Message_getString: get_string
--     Read        BuildMessage and Message_recv of liblinda/src/messageread.c: build, read_message
--     Free        Message_free: message_free
--     RoundTrip, Faults   writing followed by reading
--   Wire          the loops over send and recv in Message_send and Message_recv: send_frame, recv_frame;
--                 the answers of send and recv are a script
--     Send, Recv  each loop alone; RoundTrip   one after the other
--   Client        liblinda/src/linda.c and tuplespace.c: client_in, client_rd and the others are the
--                 operations Linda_in, Linda_rd and so on, as their events, for each answer
--     Balance     what they take and give up
--   Value         minimal/src/minimal_c.h: `struct MinimalValue_t`
--     Compare     Minimal_Value_eq and Minimal_Value_ge of minimal/src/value_funcs.c
--     Order       what they decide
--     Tuple       Minimal_tuple, Minimal_tupleAdd, Minimal_tupleSet, Minimal_tupleGet
--     Numbers     the constructors and getters of the integer types, with the getters' casts
--     Text        Minimal_string, Minimal_string2 and the sum of strings in Minimal_Value_add, as bytes
--   SyntaxTree    minimal/src/syntax_tree.c: the trees as the comparison walks over them
--     Compare     Minimal_SyntaxTree_cmp: cmp; Equal, Zero and Order: what its answers tell
--     Chain       the chains of arguments and parameters, Minimal_SyntaxTree_createArgumentList1 and
--                 its kin
--   Serial        the names that minimal/src/serialise.c and minimal/src/parsexml.c share
--     Write       Minimal_serialiseCode, Minimal_serialiseTypeSpec and Minimal_serialiseParameterList
--     Tag, Read   Minimal_xmlToSyntaxTree: xml_to_tree; each loop over the children of a node is a
--                 function of the state and one child, which `each` repeats
--     Slots       those loops at the children that are written
--     Trees, Specs, Params   the trips of code, of types and of parameters
--     Datum       the values with the parts that are written
--       Write, Tag, Read   Minimal_serialiseValue and Minimal_xmlToValue2: serialise_value, xml_to_value2
--       Received, Steps, Trip   what arrives of a value, and that it does
--       Transport   the values that lose nothing, and the `Codec` of the messages
--   Eval          minimal/src/evaluate.c and layer.c over a `Store`: the layers of names, and the functions
--                 and types by their addresses; a `Run` may also end by its fuel
--     Layers      the names that a layer sees, and Minimal_Layer_addTree
--     Operate     the values that are computed: operators, truth, elements of tuples
--     Node        Minimal_evaluate: evaluate_node is the switch, evaluate takes the fuel
--     Fuel        what more fuel does; Denote   expressions over an environment, the reference
--     Agree, Call   evaluation against the reference, and calls of functions
--   TypeList      minimal/src/type_list.c: the types that a type is made of, over the layers of Eval
--     Missing     the types that are not yet on the list
--     Closed, Added, Walk, Ends   what is on the list after each part of the collection
--   Object        the reference counted objects with their pointers: what is released, and how
--     Node        the nodes of syntax trees: Minimal_SyntaxTree_getReferences and _free
--     Copy        Minimal_SyntaxTree_copy and the references that a copy holds
--     Field       values (minimal/src/values.c), layers (layer.c), and the objects of all kinds under
--                 Minimal_getReferences and Minimal_delObject (refcount.c)
--     Release, Total   what deleting an object releases, and when it returns
--     Build       sequences, product types and sum types, put together from nodes
--   Collector     Minimal_addToCyclicGarbageList and Minimal_performCyclicCollection, over a `Heap`:
--                 the count in each object and the pointers that Minimal_getReferences reports
--     Items, Decide, Scan   the loops' invariants
--     Distinct, Resolve, Seen, Track   no object is listed twice, and the indices noted stand for pointers
--     Safe        what a collection shows; Enough and Ends: that the loops end
--   Refcount      minimal/src/refcount.c together with the end of Minimal_performCyclicCollection:
--                 step and run make calls of Minimal_delReference and free, which are a list; the
--                 objects are `Cell`s, each with its address, its count and whether it is freed
--     Cells, Clear, Clique   the list of objects, and the objects that are destroyed together
--     Counts, Closed, Settled, Finished   the parts of the invariant; Sound: all of them
--     Destroyed, Steps   every call keeps the invariant
--     Program, Make, Trade, Reach   what a program does: `Reaches` is the relation of its states
--   The modules called Examples run the definitions, and apply the theorems, at concrete inputs.
--
-- Bounds and fuel. The collector's loops take fuel: the scan ends by the number of objects that
-- can be reached, and the search for the clique by the number found, as Collector/Ends shows. A run of Refcount takes
-- as many calls as it is told to make, and a step has the collector's fuel; its theorems hold for any. The
-- counters and array sizes of C are unbounded numbers here: no loop of these files comes near their
-- bounds unless as many objects exist. The fuel of Minimal_evaluate is the depth of its calls of itself; a
-- program in the language may run forever. That of Minimal_getTypeList is the depth of its calls. The getters of integers wrap as the C casts do.
--
-- Not modelled. Printing to stderr, and malloc, which is taken to succeed. The printing and parsing
-- of documents by libxml: a document is its tree. The sockets below send and recv, the
-- connecting, Linda_out with its scan of
-- the tuple and the registration of types, what only a build with types has, the
-- bindings for Python, Scheme and C++, the generated parser, and the server, which is in Python. Of
-- values.c the constructors and getters of the types that are not named above, the types of values,
-- and copying. Of syntax_tree.c the functions that only store their arguments in a new
-- node. Minimal_apply, the current layer, and the references that a list of types holds. Of the
-- serialisation the layers of functions and types, which are not written and are new to the receiver, the
-- names that its layer gets for the types it reads, the types of values, which are written only where Minimal_use_types is set, and the memo
-- by which a document's pointers find their targets.
pub mod Base
pub mod Client
pub mod Collector
pub mod Eval
pub mod Message
pub mod NameMap
pub mod Object
pub mod Refcount
pub mod Serial
pub mod SyntaxTree
pub mod TypeList
pub mod Value
pub mod Wire
