-- ===== src/Lib.antt =====
-- libPMacc is the library under the plasma simulation PIConGPU: it divides a grid of cells into
-- supercells, the supercells into areas that the kernels run on, and the grid among devices, and it
-- keeps the particles of each supercell in a list of frames. This development models the index
-- arithmetic of the areas and of the exchange between devices, the lists of frames, the sliding
-- position of a device, the moving window, the sizes of buffers, the event system, the plugins, the
-- registered data, and the main loop with the step of PIConGPU around its kernels. Paths are below src/libPMacc/include, but for those that begin
-- with src.
--
-- Prelude, with Tests, Lists, Int and Bits, is the shared vocabulary: tests on the native numbers,
-- lists, the integers, bit masks.
-- Dimensions models dimensions/DataSpace.hpp with the operators of math/vector/Vector.hpp, one
-- record for each dimension. Dimensions/Linear models the two directions of `map` in
-- dimensions/DataSpaceOperations.hpp; Project models `reduce` and `extend` of the same file.
-- Mask models memory/dataTypes/Mask.hpp, `ExchangeType` of types.h and traits/NumberOfExchanges.hpp.
-- Mapping models the constructor of mappings/kernel/MappingDescription.hpp. Mapping/Area models
-- AreaMappingMethods.hpp: `getGridDim` is `*_dim`, and `getBlockIndex` is `*_index`, with the
-- area and the dimension in the name. Mapping/Exchange models ExchangeMappingMethods.hpp in the same
-- way. Mapping/Stride models StrideMapping.hpp and StrideMappingMethods.hpp in three dimensions.
-- Frames models particles/memory/boxes/ParticlesBox.hpp, with SuperCell.hpp and Pointer.hpp:
-- `set_as_first_frame`, `set_as_last_frame`, `remove_last_frame`, the getters of neighbouring
-- frames, and (in Frames/Alloc) `get_empty_frame`. The heap is a map from pointers to frames.
-- Comm models communication/CommunicatorMPI.hpp in three dimensions: `updateCoordinates`, `slide` and
-- `setStateAfterSlides`, and `init`.
-- Plugins models pluginSystem/PluginConnector.hpp with `load` and `unload` of IPlugin.hpp.
-- Data models dataManagement/DataConnector.hpp, with Dataset.hpp and ListSorter.hpp.
-- Events models eventSystem: the tasks, observers and maps of Manager.tpp, TaskLogicalAnd.hpp and
-- EventTask.tpp (`operator+=` is `add_event`); Events/Execute models `execute` and
-- `waitForFinished`; Events/Streams models StreamController.hpp and EventPool.hpp;
-- Events/Transactions models Transaction.tpp and TransactionManager.tpp; Events/Tasks models
-- TaskSend.hpp, TaskReceive.hpp, TaskSendMPI.hpp and TaskReceiveMPI.hpp.
-- Window models SubGrid.hpp and Selection.hpp of mappings/simulation and `updateLocalDomainOffset` of
-- GridController.hpp there, and src/picongpu/include/simulationControl/MovingWindow.hpp. Buffers
-- models the current size and extents of memory/buffers/Buffer.hpp; Buffers/Exchanges models
-- dimensions/GridLayout.hpp, the regions of ExchangeIntern.hpp, and the two exchanges that
-- `addExchange` of GridBuffer.hpp makes for a direction; Buffers/Grid models that function with the
-- tags of `UniquTag`. Its error, and that of a failed assertion, is `none`.
-- Reduce models nvidia/reduce/Reduce.hpp: Reduce/Kernel the sum that a kernel hands over, Reduce/Host the
-- kernels that the host starts. Exchange models `pushN` of particles/memory/boxes/ExchangePushDataBox.hpp
-- by threads that interleave; Exchange/Tasks models TaskSendParticlesExchange.hpp and
-- TaskReceiveParticlesExchange.hpp of particles/tasks, for any calls on the particles.
-- Distribution models src/picongpu/include/initialization/ParserGridDistribution.hpp, behind its regular
-- expressions.
-- Simulation models the main loop and the checkpoints of simulationControl/SimulationHelper.hpp, with the order of its calls in Simulation/Actions, and
-- MySimulation the functions that it calls: `runOneStep`, `movingWindowCheck` and the end of `init` of
-- src/picongpu/include/simulationControl/MySimulation.hpp, with `CellwiseOperation` of
-- src/picongpu/include/fields/background/cellwiseOperation.hpp. MySimulation/Reference is the simulation
-- it is compared with.
--
-- Dimensions is used by all modules on the grid; Mask turns a direction into the offsets that
-- Mapping/Exchange, Buffers/Exchanges, Project and Comm use; Mapping/Stride uses the linear positions of
-- Dimensions/Linear.
--
-- Numbers. An `int` is a mathematical integer (Prelude/Int), since its overflow is undefined. Where
-- the source mixes `int` with `uint32_t` the value is wrapped at 2^32 (`wrap`, `to_uint32`), and the
-- theorems then bound the extents by 2^31. A `uint32_t` that only counts up to a bound is a natural
-- number.
-- Loops. Those with a fixed bound are recursion on the rounds left: 26 rounds for the directions, 13
-- for the tries of `getEmptyFrame`. `same_digit` takes fuel: each round divides by 3, so that fuel
-- above the exchange type is enough. `raise` takes the distance of the coordinate from 0, which is
-- enough for a positive number of devices. `main_loop` takes the steps that are left, and `visit`
-- one round for each frame and one more. `delete_task` takes fuel for the tasks that are deleted in
-- turn, each younger than the one before, so that the next identifier is enough; `execute_from`
-- visits identifiers upwards, so that the next identifier is enough too. `initialise` takes one round
-- for each identifier.
-- `reduce_loop` takes a round for each kernel, and as many rounds as elements are enough; `strided` takes
-- a round for each element and `reduce_shared` one for each thread of the block.
--
-- Parameters. mallocMC's allocator, the two queries of a cartesian MPI topology, the virtual
-- functions of plugins, data, initialisers and of a simulation, `executeIntern` of the tasks in
-- `execute`, the answers of MPI_Test, the counts that MPI delivers, the functor
-- of a reduction, what `bashParticles`, `insertParticles` and the transport of particles do, which events have finished when a task is polled, whether a file can be opened, and what the moving window
-- computes in floating point (`Pace`) are arguments; so are the kernels on particles and fields (`Physics`).
-- Not modelled: floating point code, device memory, the contents of streams,
-- the container library cuSTL, the kernels of particles and fields, output and input; the atomicity of the exchange in the lists of frames, which are one thread's here; the kernel
-- functions that call the getters of frames; the tasks that the Factory registers as observers of other tasks; the time measurements of the main loop.
pub mod Prelude
pub mod Dimensions
pub mod Mask
pub mod Project
pub mod Mapping
pub mod Frames
pub mod Comm
pub mod Plugins
pub mod Reduce
pub mod Exchange
pub mod Simulation
pub mod Data
pub mod Events
pub mod Distribution
pub mod Window
pub mod Buffers
pub mod MySimulation
