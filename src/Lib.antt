-- ===== src/Lib.antt =====
-- Models and proofs for the programs of this repository, exercises in C: contact books, a balanced tree, a
-- priority queue, file permissions, a subnet calculator, a command interpreter with pipes, producers and
-- consumers on a file and in shared memory, network and chat servers, a taxi dispatcher and three
-- kernel modules.
-- The programs are independent of each other, except that Semaphores uses the lines of DataFile,
-- SharedMemory the semop of Semaphores, that the contact books of module 2 share the record of
-- a contact, and that one of them stands on the tree and one on the linked list.
--
-- Files, and the code they follow (paths from the root of the repository):
--  * Base, Base/Int, Base/Calculation: shared names, lists measured by native numbers, Boolean tests, signed
--    integers, and what the two calculator servers promise.
--  * Text, Text/Decimal, Text/Scan, Text/Tokens, Text/Width: C strings as lists of bytes before the terminating
--    0; strcmp, strncpy, atoi, printf and sscanf with %d, strtok, and the width of printed numbers.
--  * AvlTree: module2/task3/4.3/src/avltree.c. The tree of Contact pointers is a data type; make_balance,
--    insert_node, delete_node, search_node, dfs and their parts keep their names. Shape, Steps and Spine
--    are about the heights and the rotations, Contents about which values are in a tree, Order and Search
--    about the search order, Faults about NULL pointers.
--  * Contact, ContactTree: module2/task3/4.3/src/contacts.c, on the tree. ContactTree/Books, Deletes and
--    Lookups follow the book through its operations.
--  * ArrayContacts: module2/task1/2.1/src/contacts.c. FileContacts: module3/03/src/contacts.c.
--  * Heap: doubly linked nodes at addresses, and what is true of a chain of them. Chain says what it is to
--    hold a sequence, Split takes a chain apart at a node, Walk and Frees are about loops along it.
--  * PriorityQueue: module2/task3/4.2/src/pqueue.c. The functions stand there on the sequence of elements,
--    and in Nodes on the nodes; Places, Insertion, Removal and Dequeues join the two.
--  * LinkedList: module2/task3/4.1/src/list/list.c on the nodes; Sequence has its sequence of values,
--    Places, Insertion, Skips, Deletion and Lookup join the two.
--  * ListContacts: module2/task3/4.1/src/contacts.c on the list; Book has it without the nodes, Refinement
--    joins the two, Ids is about a history of calls.
--  * Permissions: module2/task2/3.1/src/permissions.c.
--  * Subnet: module2/task2/3.2/src/ipcalc.c. Bits has `|` and `&` as arithmetic, Addresses the dotted decimal
--    and the test for a subnet, Counts the count.
--  * Interpreter: module3/04/src/interpreter.c, the parsing of a line; execute_line is module3/02's. Commands and
--    Lines are about a line as a user writes it; Pipes has execute_pipeline on tables of descriptors, with
--    what each child reads and writes in Pipes/Children; Runs joins the two.
--  * TcpServer: module3/15/src/tcp_server_new.c. UdpServer: module3/c01/src/server.c, with its table in Table and
--    its answers in Replies.
--    QueueChat: module3/06/src/queue_chat_server.c. Taxi: module3/c02/server.c.
--  * FileTransfer: module3/13/src/tcp_server.c and the send_file of tcp_client.c. Sizes and Contents are about
--    the transfer, Rounds about a client's session.
--  * DataFile: module3/09/src/sem.c. The lines of the file are there and in Lines and Bounds; Processes has
--    the producer and the consumer with their semaphores, Sharing what these keep, Writes and Turns
--    their steps, Finish the whole.
--  * Semaphores: module3/08/src/sem.c, a producer and several consumers; the text of the lines is DataFile's.
--    Sharing has what they keep, Producing, Reading and Steps the steps, Turns and Hurried what follows.
--  * SharedMemory: module3/10/src/shared_mem_sysv.c. Extremes is about the numbers, Rounds and Turns about the
--    two processes, Endings and Progress about their end.
--  * CharDevice: module5/task4/chardev.c. ProcFile: module5/task2/proc.c. KeyboardLeds: module5/task3/kbleds.c.
-- In each part the functions of the source keep their names, in lower case; state that the code changes in
-- place is passed in and returned; a record stands for a struct. The file named Examples of a part runs it
-- on concrete values.
--
-- Conventions. A result in Option, where the C code returns no such thing, is `none` where the code follows
-- a NULL pointer, leaves an array or, in Permissions, exits. What the system calls answer (reads, writes,
-- accept, fork, open, the clock) is an argument; what is sent is a list. Numbers are natural or integer
-- without a bound, except where the code depends on the wrap-around: the height and balance of a tree node
-- are unsigned char (`% 256`), the counters of the contact books on lists and arrays are size_t (`% 2 ^ 64`).
-- Overflow of int, which C leaves undefined, is not modelled: what the servers and the taxi program read and
-- compute is given as it is, and the theorems on lines with numbers, on results and on the count of an address
-- have hypotheses that keep the values in the range (InInt, or a bound on the count). malloc is taken to
-- succeed, list pointers to be non-NULL, and memory that is given back is followed where a book keeps a pointer
-- into it (the root after a delete) and in the nodes of the heap. What malloc returns is an argument.
--
-- Fuel: decimal_from takes the number plus one as a bound on its digits, which are never more. The loops along
-- nodes (walk, walk_next, free_all) take a bound on the nodes; more than the nodes are enough, and the theorems
-- say so. run_both of DataFile/Processes bounds the steps of the two processes, recv_contents and send_contents
-- the pieces of a file, handle_client the rounds of a client, and read_all of CharDevice/Transfer the calls of a
-- reader; the theorems about them give enough. The loops on strtok recurse on the most words that
-- they take, run_turns on the turns. All other functions recurse on their data.
--
-- Not modelled: input from the console and printing, the creation of sockets, pipes and queues, signal
-- handlers, and the programs that the manifest lists as not modelled.
pub mod Base
pub mod Text
pub mod Heap
pub mod AvlTree
pub mod Contact
pub mod ContactTree
pub mod TcpServer
pub mod UdpServer
pub mod Permissions
pub mod Taxi
pub mod CharDevice
pub mod ArrayContacts
pub mod FileContacts
pub mod QueueChat
pub mod PriorityQueue
pub mod LinkedList
pub mod ListContacts
pub mod DataFile
pub mod FileTransfer
pub mod Interpreter
pub mod Subnet
pub mod Semaphores
pub mod SharedMemory
pub mod ProcFile
pub mod KeyboardLeds
