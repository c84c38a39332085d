-- ===== src/Lib.antt =====
-- vcmalloc: an allocator on Windows that moves the page frames behind its containers instead of
-- their bytes (libs_src/vcmalloc.h), and the linked containers that its benchmark runs on it
-- (libs_src/data_structures).
--
-- A process has one HyperContainerManager. It keeps hyper-containers, ranges of reserved addresses.
-- A HyperContainerContext keeps the containers of one range, one behind the other, and the array
-- of the physical frames behind its pages, in the order of the addresses. A ContainerContext
-- refers to the pointer variable of the user, which holds the start of the container. The bytes of
-- a container's last page that belong to the next one are its guest bytes.
--
-- Search: struct Search and Distance. msb, binary_search; the array is a list, a read outside it
--   the outcome `fault`.
-- Container: struct ContainerContext. One function per member, on the start, the element size and
--   the count, with the page shift s for page_size = 2 ^ s.
-- Pages: ceil((double)bytes / page_size), with the rounding of the conversion written out.
-- Context: struct HyperContainerContext. Storage has its members.
-- Alloc, Realloc, Realloc2: ContainerAlloc, ContainerRealloc and ContainerRealloc2. In Realloc a
--   Plan holds what the function computes first; shrink and grow are its branches. In Realloc2 a
--   Pass holds the variables of a loop; the template argument DataType is its size.
--   Found, Request, Outcome and Correct lead from the search for the container to the whole call;
--   Moves, Placed, Repaged and Bytes are about the pages and the bytes, Refused about a refusal of
--   frames; in Alloc, Backed and Refused are about the same.
-- Manager: struct HyperContainerManager. Interface: ExtendCcStorage to vccfree, in the state World
--   of the whole process. Its Managed says when the manager is well formed, Lookup, Reserved and
--   Release are about the calls, Contexts and Refines see the manager as a map from addresses to
--   contexts, and Steps has the relation between the states of a process.
-- LinkedList: linkedList.h, with Unordered and Ordered for the two classes and Copy for copyList.
--   Without and Remove are about deleteNode, Placed and Enter about the insert of an ordered list.
-- LinkedStack: linkedStack.h. LinkedQueue: linkedQueue.h. ArrayQueue: queue.h.
-- DoublyLinkedList: doublyLinkedList.h. ListStack: stackUnorderedLinkedList.h.
-- BinaryTree: binaryTree.h and binarySearchTree.h; Delete has deleteNode and copyTree, Shape the
--   trees that nodes spell, Stacked the traversals with a stack, and Walk, Insert and Order the
--   proofs.
-- Machine: what the code stands on. Os is a record of the functions of Windows and of the C runtime,
--   a parameter of everything that calls them; Run is the monad of the commands; Memory is
--   memmove through the page tables; Mmu states what Windows documents of those, and Copy, Remap,
--   Frames and Content are about mapped frames and the bytes behind them. Base has lists, tests and
--   64-bit words. Samples has machines at which the theorems are applied.
--
-- Every command ends with a value and a state, throws with the state as it is then, faults for
-- undefined behaviour, or is out of fuel. SIZE_T, ULONG_PTR and INT64 are native numbers with
-- their wrap-around written out.
--
-- Fuel: MSB has 64 rounds, enough below 2 ^ 63; the second loop of binarySearch has 66 and the
-- first as many as there are cells, enough on an ascending array; doubling has 64, enough up to
-- 2 ^ 63; the containers' array has as many rounds as containers are needed. The loops of the lists
-- and vccalloc's calls of VirtualAlloc take their fuel as an argument.
--
-- The user's pointer variables are a store besides the memory, so the model is that of a program
-- that keeps them outside the pages of its hyper-containers; container_alloc is also related to the
-- bytes that a program reads where they lie in those pages. The count of a list is an int: to raise
-- it beyond 2 ^ 31 - 1 is the outcome `fault`. An object of BinaryTreeType has two roots, that of
-- binaryTreeType and the one that bSearchTreeType declares again.
--
-- Not modelled: a call of ContainerRealloc or ContainerRealloc2 that moves pages with pointer
-- variables in them; the messages on standard output; the destructor of queue.h; graph.h; the
-- benchmark drivers (vcmalloc_bench, vcmalloc_bench_cuda), which time the library; mimalloc and
-- pcm, which are copies of other projects.
pub mod Base
pub mod Search
pub mod Machine
pub mod Container
pub mod Pages
pub mod Context
pub mod Alloc
pub mod Realloc
pub mod Realloc2
pub mod Manager
pub mod Interface
pub mod LinkedList
pub mod LinkedStack
pub mod LinkedQueue
pub mod ArrayQueue
pub mod BinaryTree
pub mod ListStack
pub mod DoublyLinkedList
pub mod Samples
