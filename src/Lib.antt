-- ===== src/Lib.antt =====
-- mARGOt, the application-specific runtime manager: a library that chooses the configuration of an
-- application at run time (margot/include/margot), and agora, the server that explores the configurations
-- of the applications and learns their models (agora/include/agora, agora/src). The modules follow the
-- files of the program.
--
-- A manager (asrtm.hpp) keeps the knowledge of an application, its Operating Points, and a number of
-- states of which one is active; it tells each state what changes. A state (state.hpp) is a
-- constrained optimisation problem over a knowledge of Operating Points. Its constraints
-- (constraint.hpp) form a row, sorted by priority; each keeps the Operating Points that fail it and
-- pass the ones before it. The rank (rank.hpp) holds those that pass all of them, sorted by the
-- objective. Constraints and ranks keep their Operating Points in views (view.hpp), which are sorted
-- by what an evaluator gives for an Operating Point.
--
-- An application whose best configuration depends on its input has a manager for each cluster of input
-- features (da_asrtm.hpp); the cluster that is closest to an input (data_features.hpp) is active. A thread
-- of each manager serves the messages of agora: a configuration to explore, or the predicted knowledge.
-- On the side of the server a pool of workers takes messages from a queue (safe_queue.hpp); for each
-- application a handler (application_handler.cpp) sends what its design of experiments (model_doe.hpp)
-- has left, and, when a batch is explored, starts the plugins that make models and a prediction.
--
-- What a manager knows of the running application comes from monitors: each keeps a window of observations
-- with its statistics (statistical_provider.hpp). A table of adaptors (knowledge_adaptor.hpp) relates the
-- monitors to the fields of the Operating Points, whose bounds an evaluator reads (evaluator.hpp).
--
-- The heel generator (heel/src) makes the interface of an application from a description, which it reads from
-- a property tree and checks, and which it writes again with all that was left to it filled in.
--
-- Base: shared tests, pointers and streams (the vectors of shared pointers that the parts exchange).
-- Enums, Goal: enums.hpp and goal.hpp: comparison functions, goals, and the environment from which a
--   constraint reads its goal value and its error coefficient.
-- PtrSet, Multimap: what the code uses of std::unordered_set and std::multimap.
-- CircularBuffer: circular_buffer.hpp, the window of observations of a monitor.
-- Knowledge: knowledge_base.hpp, what a manager knows, one Operating Point for each configuration.
-- Asrtm: asrtm.hpp, the manager: its knowledge, its states by their ids (Asrtm.States), the methods of
--   the application (Asrtm.Run) and the thread that serves the messages of the server (Asrtm.Handler).
--   Asrtm.Reachable has its calls as steps; a call whose assertion fails is no step.
-- Statistics, StatisticalProvider: statistics.hpp and statistical_provider.hpp, the statistics of a window,
--   which are kept with the time of the change that they belong to.
-- OperatingPoint, Evaluator: operating_point.hpp, operating_point_segment.hpp, basic_information_block.hpp and
--   evaluator.hpp, the fields of an Operating Point, their bounds, and the composition of some of them into
--   one value.
-- FieldAdaptor, KnowledgeAdaptor: field_adaptor.hpp and knowledge_adaptor.hpp, the error coefficient of a
--   field, the average of a window of quotients between what was expected and what was observed, and the
--   table of the adaptors.
-- Features: data_features.hpp, which of two clusters is closer to an input.
-- DaAsrtm: da_asrtm.hpp, the managers of the clusters: DaAsrtm.Handler has the messages of the server,
--   DaAsrtm.Reachable all calls as steps.
-- Agora.Doe, Agora.Queue: model_doe.hpp and safe_queue.hpp.
-- Agora.Handler: application_handler.hpp and .cpp. Agora.Handler.Recovery has `welcome_client` and
--   `bye_client`, which keep the mutex; Agora.Handler.Observation has `process_observation`, cut at the
--   points where it gives the mutex back; Agora.Handler.System interleaves any number of workers there.
-- View, Rank, Constraint: the classes of those names; State: class State, with the loops over the
--   constraints in State.Stack, `update` in State.Update and `get_best_operating_point` in State.Solve.
-- Heel.Names, Heel.States: model_validate.cpp, typer.cpp and model_state.cpp, the checks of names and of
--   the states of an application.
-- Heel.Trees: composer_utils.hpp and parser_utils.hpp over an interface of property trees: Heel.Trees.Writes has
--   the laws of that interface, Heel.Trees.Memory a tree that meets them. Heel.Models, Heel.Composers and
--   Heel.Parsers have the parts of a description, Heel.StateTrees the states.
-- The theorems stand in the modules below each of these.
--
-- How the state of the program is read:
-- * A number of a machine type is its position in the order of that type, a native number, so that all
--   comparisons of the code are exact. NaN has no position: values are assumed to be numbers. The product
--   of a goal and an error coefficient is an argument, of which nothing is assumed.
-- * A shared pointer to an Operating Point is its address. Operating Points are not changed once they
--   exist, so an evaluator is a function of the pointer; which one a view has is an argument.
-- * A goal value and a field adaptor are shared with the application, so they are read through an
--   environment at each call. Mutexes make each method atomic and are left out.
-- * A method returns the new object, and the streams that it writes. A sorted map is a list in ascending
--   order; the iteration order of an unordered set is that of a list, and no theorem depends on it.
-- * Loops are recursions on lists; the loop of `State::update` changes the list that it walks, so it
--   recurs on the number of constraints, which is proved to be enough.
-- * An iterator into the clusters is the place of its element, or none for the end. A call that goes on to use
--   an iterator which `erase` has invalidated has no result, like one whose assertion fails.
-- * What the plugins and the storage of agora yield, and what the converter of an application makes of a
--   payload, are arguments that may differ at each call. What is sent is a list of effects.
-- * Template arguments (a field, a bound, a composer) are values, so what a static assertion refuses is none.
--   The arithmetic of the machine types is an argument where the code is generic in them.
-- * The property trees of Boost and its conversions between texts and values are arguments with the laws that
--   their documentation states. The loop that generates the numbers of a range is an argument.
-- Not modelled: printing for debugging, the handle of a monitor and the monitors of the hardware (what each
-- gives and what a table of adaptors makes of the environment are arguments of find_best_configuration), the
-- network client, agora's parsing of topics, its storage in csv files and its launcher, the other checks of
-- heel, blocks and applications as trees, and the source text that heel generates.
pub mod Base
pub mod Enums
pub mod Goal
pub mod PtrSet
pub mod Multimap
pub mod View
pub mod Rank
pub mod Constraint
pub mod State
pub mod Agora
pub mod Asrtm
pub mod CircularBuffer
pub mod DaAsrtm
pub mod Evaluator
pub mod Features
pub mod FieldAdaptor
pub mod Heel
pub mod Knowledge
pub mod KnowledgeAdaptor
pub mod OperatingPoint
pub mod StatisticalProvider
pub mod Statistics
